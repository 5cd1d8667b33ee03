-- ===== src/Epoch/Packing.antt =====
-- Where the plaintexts of a packed blob are: epoch_flush.rs.
use arx_runa.Prelude.{
  ℕ, ◌+◌, ◌-◌, ◌≤◌, ◌≡◌, refl, ap, sym, ◌∙◌, List, [], ◌∷◌, ◌++◌, Bytes, length, slice, take, drop,
  arith, length-append, append_assoc, take-append_exact, drop-append_exact, subst,
}
use arx_runa.Manifest.Store.{Extent}
use arx_runa.Epoch.{Entry, pack}

-- The extents are those of the entries' plaintexts in `whole`.
abbrev pub Slices : Bytes → List Entry → List Extent → Type 0
Slices whole [] [] = Unit {0}
Slices whole (e ∷ entries) (x ∷ extents) =
    (x.0 ≡ e.0)
    × (x.1 ≡ 0)
    × (slice x.2 (x.2 + x.3) whole ≡ e.1)
    × (x.2 + x.3 ≤ length whole)
    × Slices whole entries extents
Slices whole _ _ = ⊥

slice-append :
    (before part after : Bytes)
    → slice (length before) (length before + length part) (before ++ (part ++ after)) ≡ part
slice-append before part after =
    let size : length before + length part - length before ≡ length part = omega arith in
    ap (λ (k : ℕ). take k (drop (length before) (before ++ (part ++ after)))) size
    ∙ ap (take (length part)) (drop-append_exact (length before) before (part ++ after) refl)
    ∙ take-append_exact (length part) part after refl

-- `pack` says where each plaintext is, whatever is put before and behind what it packs.
pub pack-Slices :
    (entries : List Entry) (before after : Bytes)
    → Slices
        (before ++ ((pack (length before) entries).0 ++ after))
        entries
        (pack (length before) entries).1
unfolding pack
pack-Slices [] before after = tt
pack-Slices ((node_id, plaintext) ∷ entries) before after =
    let offset : length (before ++ plaintext) ≡ length before + length plaintext =
      length-append before plaintext in
    let packed = (pack (length before + length plaintext) entries).0 in
    let rest = pack-Slices entries (before ++ plaintext) after in
    let moved =
      subst
        (λ (n : ℕ).
          Slices ((before ++ plaintext) ++ ((pack n entries).0 ++ after)) entries
            (pack n entries).1)
        offset rest in
    let joined : before ++ ((plaintext ++ packed) ++ after)
        ≡ before ++ (plaintext ++ (packed ++ after)) =
      ap (λ b. before ++ b) (append_assoc plaintext packed after) in
    let joined' : (before ++ plaintext) ++ (packed ++ after)
        ≡ before ++ ((plaintext ++ packed) ++ after) =
      append_assoc before plaintext (packed ++ after) ∙ sym joined in
    (
      refl,
      refl,
      ap (slice (length before) (length before + length plaintext)) joined
          ∙ slice-append before plaintext (packed ++ after),
      omega (
        arith,
        length-append before ((plaintext ++ packed) ++ after),
        length-append (plaintext ++ packed) after,
        length-append plaintext packed,
      ),
      subst (λ b. Slices b entries (pack (length before + length plaintext) entries).1) joined'
          moved,
    )
