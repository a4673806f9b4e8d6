-- ===== src/Tr50/Stats.antt =====
-- The statistics of a client: tr50.stats.c. Counters of type `int` do not wrap in the model.
use libtr.Base.{
  ◌∷◌, [], ℕ, ◌+◌, ◌*◌, ◌/◌, ◌%◌, ◌^◌, List, take, set, replicate, drop, ◌++◌, ltb, ◌==◌,
  if◌then◌else◌,
}
use libtr.Base.Int.{ℤ, pos, is_zero, sub_ℕ}
use libtr.Error.{Res, ok, fault}

-- `_TR50_COMPRESSION_HISTORY_MAX` and `_TR50_STATS_LAST_ERROR_MESSAGE_LEN`.
abbrev pub history_max : ℕ
history_max = 100

abbrev pub last_error_message_len : ℕ
last_error_message_len = 128

-- `_TR50_STATS`. A text is the list of its bytes up to the terminator.
pub record Stats : Type 0 where
  pub pub_sent : ℕ
  pub pub_recv : ℕ
  pub pub_byte_sent : ℕ
  pub pub_byte_recv : ℕ
  pub total_sent : ℕ
  pub total_recv : ℕ
  pub connected_timestamp : ℕ
  pub connected_count : ℕ
  pub notify_count : ℕ
  pub mailbox_check_count : ℕ
  pub last_error : ℤ
  pub last_error_timestamp : ℕ
  pub last_error_message : List ℕ
  pub compression_compressed_len : List ℕ
  pub compression_original_len : List ℕ
  pub compression_ratio_count : ℕ

-- The statistics of a client that `_memory_memset` has cleared.
abbrev pub no_stats : Stats
no_stats = record {
  pub_sent = 0;
  pub_recv = 0;
  pub_byte_sent = 0;
  pub_byte_recv = 0;
  total_sent = 0;
  total_recv = 0;
  connected_timestamp = 0;
  connected_count = 0;
  notify_count = 0;
  mailbox_check_count = 0;
  last_error = pos 0;
  last_error_timestamp = 0;
  last_error_message = [];
  compression_compressed_len = replicate 100 0;
  compression_original_len = replicate 100 0;
  compression_ratio_count = 0;
}

unfoldable pub pub_recv_up : Stats → ℕ → Stats
pub_recv_up stats byte_recv = record stats {
  pub_byte_recv = stats.pub_byte_recv + byte_recv;
  pub_recv = stats.pub_recv + 1;
}

unfoldable pub pub_sent_up : Stats → ℕ → Stats
pub_sent_up stats byte_sent = record stats {
  pub_byte_sent = stats.pub_byte_sent + byte_sent;
  pub_sent = stats.pub_sent + 1;
}

unfoldable pub notify_up : Stats → Stats
notify_up stats = record stats { notify_count = stats.notify_count + 1 }

unfoldable pub mailbox_check_up : Stats → Stats
mailbox_check_up stats = record stats { mailbox_check_count = stats.mailbox_check_count + 1 }

unfoldable pub set_connected : Stats → ℕ → Stats
set_connected stats now = record stats {
  connected_timestamp = now;
  connected_count = stats.connected_count + 1;
}

-- `_tr50_stats_set_compress_ratio`: the two rings of the last hundred sizes.
unfoldable pub set_compress_ratio : Stats → ℕ → ℕ → Stats
set_compress_ratio stats data_len compressed_len =
    let at = stats.compression_ratio_count % history_max in
    record stats {
      compression_compressed_len = set stats.compression_compressed_len at compressed_len;
      compression_original_len = set stats.compression_original_len at data_len;
      compression_ratio_count = stats.compression_ratio_count + 1;
    }

-- `_tr50_stats_set_last_error`: the message is cut at 128 bytes.
unfoldable pub set_last_error : Stats → ℤ → List ℕ → ℕ → Stats
set_last_error stats error error_message now = if is_zero error then stats else record stats {
  last_error = error;
  last_error_message = take last_error_message_len error_message;
  last_error_timestamp = now;
}

unfoldable pub clear_last_error : Stats → Stats
clear_last_error stats = record stats {
  last_error = pos 0;
  last_error_message = [];
  last_error_timestamp = 0;
}

abbrev pub sum : List ℕ → ℕ
sum [] = 0
sum (x ∷ xs) = x + sum xs

-- `tr50_stats_compress_ratio`: a division by zero and an overflow of `100 * compressed_sum` are
-- undefined behaviour.
unfoldable pub compress_ratio : Stats → Res ℤ
compress_ratio stats =
    let count = stats.compression_ratio_count in
    let used = if ltb history_max count then history_max else count in
    let compressed_sum = sum (take used stats.compression_compressed_len) in
    let uncompressed_sum = sum (take used stats.compression_original_len) in
    if count == 0
    then ok (pos 0)
    else if uncompressed_sum == 0
    then fault
    else if ltb (100 * compressed_sum) (2 ^ 31)
    then ok (sub_ℕ 100 (100 * compressed_sum / uncompressed_sum))
    else fault

-- `tr50_stats_clear_compression_ratio`: `_memory_memset` is given a hundred bytes, which are the
-- first 25 of the hundred entries.
unfoldable pub clear_compression_ratio : Stats → Stats
clear_compression_ratio stats = record stats {
  compression_ratio_count = 0;
  compression_compressed_len = replicate 25 0 ++ drop 25 stats.compression_compressed_len;
}

-- What `tr50_stats_clear_send_recv` does to the counters.
unfoldable pub clear_send_recv : Stats → Stats
clear_send_recv stats = record stats {
  pub_byte_sent = 0;
  pub_sent = 0;
  total_sent = 0;
  pub_byte_recv = 0;
  pub_recv = 0;
  total_recv = 0;
}
