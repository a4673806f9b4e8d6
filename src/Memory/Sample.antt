-- ===== src/Memory/Sample.antt =====
-- A `malloc` that always succeeds, for runs on concrete values: its blocks are full of 0xAA.
use mathlib.Core.Path.{subst}
use libtr.Base.{ap, ◌≡◌, Option, some, length, replicate, length-replicate}
use libtr.Memory.{Malloc, GivesSize}

abbrev pub heap : Malloc
heap n = some (replicate n 0xAA)

value_of : {A : Type 0} → A → Option A → A
value_of a (some b) = b
value_of a _ = a

pub heap-GivesSize : GivesSize heap
unfolding value_of
heap-GivesSize n block e =
    let same : replicate n 0xAA ≡ block = ap (value_of block) e in
    subst (λ b. length b ≡ n) same (length-replicate n 0xAA)
