-- ===== src/Jobs/Poll.antt =====
-- What the decoded output of portal_mcp_server/job_manager.py is a decoding of.
use portal_mcp_server.Base.{
  ℕ, ◌+◌, ◌-◌, ◌≤◌, ◌≡◌, ◌≢◌, refl, ap, ◌∙◌, take_all, false, ◌⊎◌, inl, inr, Text, Option, none,
  some, Option-cases, List, [], ◌∷◌, take, length, min, arith, zero, suc, is_empty,
}
use portal_mcp_server.Jobs.{try_trims, decode_incremental}

module _ (decode : List ℕ → Option Text) (escape : List ℕ → Text) (raw : List ℕ) where
  -- A result of the loop that is a decoding, of all bytes but some of the last ones.
  abbrev pub Decoded : ℕ → Text × ℕ → Type 0
  Decoded trims (text, consumed) =
      (decode (take consumed raw) ≡ some text) × (length raw ≤ consumed + trims)

  try_trims_lem :
      (left from : ℕ)
      → Decoded (from + left - 1) (try_trims decode escape raw left from)
        ⊎ (try_trims decode escape raw left from ≡ (escape raw, length raw))
  unfolding try_trims
  try_trims_lem zero from = inr refl
  try_trims_lem (suc left) from = elim (Option-cases (decode (take (length raw - from) raw))) [
    | inr (text, e) ↦ rw (try_trims, e) (inl (e, omega arith))
    | inl e ↦
        rw (try_trims, e)
          (elim (try_trims_lem left (suc from)) [
            | inl (d, le) ↦ inl (d, omega arith)
            | inr out ↦ inr out
          ])
  ]

  -- A chunk is decoded without error up to a place at most three bytes before its end, which is the
  -- place to read on from; or else it does not decode, and is escaped and consumed as a whole.
  pub decode_incremental_lem :
      raw ≢ []
      → Decoded 3 (decode_incremental decode escape raw)
        ⊎ ((decode raw ≡ none) × (decode_incremental decode escape raw ≡ (escape raw, length raw)))
  unfolding decode_incremental try_trims
  decode_incremental_lem some_bytes =
      let e0 : is_empty raw ≡ false = not_empty raw some_bytes in
      let whole : take (length raw - 0) raw ≡ raw = take_all (length raw - 0) raw (omega arith) in
      elim (Option-cases (decode raw)) [
        | inr (text, e) ↦
            let d : decode (take (length raw - 0) raw) ≡ some text = ap decode whole ∙ e in
            rw (decode_incremental, e0, try_trims, d) (inl (d, omega arith))
        | inl e ↦ elim (try_trims_lem (suc (min 3 (length raw))) 0) [
          | inl (d, le) ↦ rw (decode_incremental, e0) (inl (d, omega arith))
          | inr out ↦ rw (decode_incremental, e0) (inr (e, out))
        ]
      ]
    where
      not_empty : (xs : List ℕ) → xs ≢ [] → is_empty xs ≡ false
      not_empty [] h = absurd (h refl)
      not_empty (x ∷ xs) h = refl
