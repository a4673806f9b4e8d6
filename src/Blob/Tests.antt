-- ===== src/Blob/Tests.antt =====
-- A `realloc` that always succeeds, and the theorem at a concrete input.
use libtr.Base.{
  ◌+◌, ℕ, ◌-◌, ◌≡◌, refl, sym, ap, ◌∙◌, List, [], ◌∷◌, ◌++◌, Option, none, some, length, replicate,
  length-append, length-replicate, arith,
}
use libtr.Blob.{Blob, Realloc}
use libtr.Blob.Growth.{Copies, IsBlob}
use libtr.Blob.Laws.{Appended, blob_append-IsBlob}

abbrev longer : List ℕ → ℕ → List ℕ
longer block n = block ++ replicate (n - length block) 170

abbrev realloc : Realloc
realloc block n = some (longer block n)

abbrev value_of : List ℕ → Option (List ℕ) → List ℕ
value_of other none = other
value_of other (some block) = block

realloc-Copies : Copies realloc
realloc-Copies block n new larger e =
    let same : longer block n ≡ new = ap (value_of []) e in
    let pad : length (replicate (n - length block) 170) ≡ n - length block =
      length-replicate {A = ℕ} (n - length block) 170 in
    (
      replicate (n - length block) 170,
      sym same,
      ap length (sym same)
          ∙ length-append block (replicate (n - length block) 170)
          ∙ (let e : length block + length (replicate (n - length block) 170) ≡ n =
                omega (arith, pad, larger) in
              e),
    )

abbrev full : Blob
full = record { buffer = 1 ∷ 2 ∷ []; size = 2; len = 2; unused = 0 }

full-IsBlob : IsBlob full (1 ∷ 2 ∷ [])
full-IsBlob = record {
  free = [];
  block = refl;
  len_of = refl;
  size_of = refl;
  unused_of = refl;
  some_size = omega arith;
}

blob_append-IsBlob_example : Appended realloc full (1 ∷ 2 ∷ []) (3 ∷ 4 ∷ 5 ∷ [])
blob_append-IsBlob_example =
    blob_append-IsBlob realloc full (1 ∷ 2 ∷ []) (3 ∷ 4 ∷ 5 ∷ []) realloc-Copies full-IsBlob
