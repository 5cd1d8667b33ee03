-- ===== src/Manifest/Deletion/Counting.antt =====
-- How often a blob name stands in the manifest, before and behind the statements of `delete_node`.
use arx_runa.Prelude.{
  ℕ, ◌+◌, ◌≤◌, ◌≡◌, refl, Bool, true, false, ◌&&◌, ◌||◌, List, [], ◌∷◌, ◌++◌, Text, ltb, ◌===◌,
  ===→eq, subst, arith, Bool-cases, inl, inr,
}
use arx_runa.Manifest.Types.{Manifest, ChunkRecord, EpochBlobRecord, PendingDeletion}
use arx_runa.Manifest.Deletion.{
  is_standalone, has_row_in, has_row_out, has_row, chunk_names, blob_names_of, is_pending,
  insert_or_ignore, enqueue, keep_chunks, keep_blobs,
}

abbrev pub bit : Bool → ℕ
bit true = 1
bit false = 0

abbrev pub occurs : Text → List Text → ℕ
occurs name [] = 0
occurs name (n ∷ names) = bit (n === name) + occurs name names

-- The rows with a blob of their own that have the name.
abbrev pub chunk_uses : Text → List ChunkRecord → ℕ
chunk_uses name [] = 0
chunk_uses name (c ∷ chunks) =
    bit (is_standalone c.epoch_blob_id && c.blob_name === name) + chunk_uses name chunks

abbrev pub blob_uses : Text → List EpochBlobRecord → ℕ
blob_uses name [] = 0
blob_uses name (b ∷ blobs) = bit (b.blob_name === name) + blob_uses name blobs

-- How often the name is one of a blob of the manifest.
abbrev pub uses : Text → Manifest → ℕ
uses name m = chunk_uses name m.chunks + blob_uses name m.epoch_blobs

-- Every epoch blob has a row.
abbrev pub HaveRows : List ChunkRecord → List EpochBlobRecord → Type 0
HaveRows chunks [] = Unit
HaveRows chunks (b ∷ blobs) = (has_row chunks b.epoch_blob_id ≡ true) × HaveRows chunks blobs

pub occurs-append :
    (name : Text) (xs ys : List Text) → occurs name (xs ++ ys) ≡ occurs name xs + occurs name ys
occurs-append name [] ys = omega arith
occurs-append name (x ∷ xs) ys = omega (arith, occurs-append name xs ys)

-- A row with a blob of its own is queued or kept.
pub chunk_uses_split :
    (name : Text) (ids : List ℕ) (chunks : List ChunkRecord)
    → occurs name (chunk_names ids chunks) + chunk_uses name (keep_chunks ids chunks)
      ≡ chunk_uses name chunks
unfolding chunk_names keep_chunks
chunk_uses_split name ids [] = refl
chunk_uses_split name ids (c ∷ chunks) = ground (arith, chunk_uses_split name ids chunks)

pub has_row-keep_chunks :
    (ids : List ℕ) (chunks : List ChunkRecord) (b : ℕ)
    → has_row (keep_chunks ids chunks) b ≡ has_row_out ids chunks b
unfolding keep_chunks
has_row-keep_chunks ids [] b = refl
has_row-keep_chunks ids (c ∷ chunks) b = ground (arith, has_row-keep_chunks ids chunks b)

pub has_row_cases :
    (ids : List ℕ) (chunks : List ChunkRecord) (b : ℕ)
    → has_row chunks b ≡ (has_row_in ids chunks b || has_row_out ids chunks b)
has_row_cases ids [] b = refl
has_row_cases ids (c ∷ chunks) b = ground (arith, has_row_cases ids chunks b)

-- An epoch blob is queued or kept if it has a row, and never both.
pub blob_uses_split :
    (name : Text) (ids : List ℕ) (chunks : List ChunkRecord) (blobs : List EpochBlobRecord)
    → HaveRows chunks blobs
    → occurs name (blob_names_of ids chunks blobs)
        + blob_uses name (keep_blobs (keep_chunks ids chunks) blobs)
      ≡ blob_uses name blobs
unfolding blob_names_of keep_blobs
blob_uses_split name ids chunks [] h = refl
blob_uses_split name ids chunks (b ∷ blobs) h = ground (
  arith,
  blob_uses_split name ids chunks blobs h.1,
  has_row-keep_chunks ids chunks b.epoch_blob_id,
  has_row_cases ids chunks b.epoch_blob_id,
  h.0,
)

pub blob_uses_le :
    (name : Text) (ids : List ℕ) (chunks : List ChunkRecord) (blobs : List EpochBlobRecord)
    → occurs name (blob_names_of ids chunks blobs)
        + blob_uses name (keep_blobs (keep_chunks ids chunks) blobs)
      ≤ blob_uses name blobs
unfolding blob_names_of keep_blobs
blob_uses_le name ids chunks [] = omega arith
blob_uses_le name ids chunks (b ∷ blobs) =
    ground
      (arith, blob_uses_le name ids chunks blobs, has_row-keep_chunks ids chunks b.epoch_blob_id)

pub HaveRows-keep_blobs :
    (chunks : List ChunkRecord) (blobs : List EpochBlobRecord)
    → HaveRows chunks (keep_blobs chunks blobs)
unfolding keep_blobs
HaveRows-keep_blobs chunks [] = tt
HaveRows-keep_blobs chunks (b ∷ blobs) = elim (Bool-cases (has_row chunks b.epoch_blob_id)) [
  | inl kept ↦ rw kept (kept, HaveRows-keep_blobs chunks blobs)
  | inr lost ↦ rw lost (HaveRows-keep_blobs chunks blobs)
]

is_pending-append :
    (ps qs : List PendingDeletion) (name : Text)
    → is_pending (ps ++ qs) name ≡ (is_pending ps name || is_pending qs name)
unfolding is_pending
is_pending-append [] qs name = refl
is_pending-append (p ∷ ps) qs name = ground (arith, is_pending-append ps qs name)

-- The queue has the names that it had and the new ones.
pub is_pending-enqueue :
    (pending : List PendingDeletion) (names : List Text) (queued_at : ℕ) (name : Text)
    → is_pending (enqueue pending names queued_at) name
      ≡ (is_pending pending name || ltb 0 (occurs name names))
unfolding is_pending enqueue
is_pending-enqueue pending [] queued_at name = ground arith
is_pending-enqueue pending (n ∷ names) queued_at name =
    let added = insert_or_ignore pending n queued_at in
    let ih = is_pending-enqueue added names queued_at name in
    elim (Bool-cases (is_pending pending n)) [
      | inl there ↦ elim (Bool-cases (n === name)) [
        | inl same ↦
            let e = ===→eq n name same in
            let there' : is_pending pending name ≡ true =
              subst (λ z. is_pending pending z ≡ true) e there in
            ground (arith, there, same, there', ih)
        | inr other ↦ ground (arith, there, other, ih)
      ]
      | inr absent ↦
          let split =
            is_pending-append pending (record { blob_name = n; queued_at = queued_at } ∷ []) name in
          ground (arith, absent, split, ih)
    ]
