-- ===== src/Jobs/Follow.antt =====
-- A client that polls an ended job of portal_mcp_server/job_manager.py until there is no more.
use portal_mcp_server.Base.{
  ℕ, ◌+◌, ◌-◌, ◌≤◌, ◌<◌, ◌≡◌, ◌≢◌, refl, sym, ap, ◌∙◌, ◌⊎◌, inl, inr, Text, true, ◌&&◌, Option,
  none, some, List, [], ◌∷◌, take, drop, length, length-take, length-drop, take_all, take-take, min,
  ltb, leb, arith, zero, suc, if◌then◌else◌, Bool-cases,
}
use portal_mcp_server.Jobs.{Status, is_terminal, decode_incremental, try_trims}
use portal_mcp_server.Jobs.Poll.{decode_incremental_lem}
use portal_mcp_server.Jobs.Output.{fetch_chunk, poll_chunk, has_more}

module _ (decode : List ℕ → Option Text) (escape : List ℕ → Text) where
  try_trims-le :
      (raw : List ℕ) (left from : ℕ) → (try_trims decode escape raw left from).1 ≤ length raw
  unfolding try_trims
  try_trims-le raw zero from = omega arith
  try_trims-le raw (suc left) from = ground (arith, try_trims-le raw left (suc from))

  decode_incremental-le : (raw : List ℕ) → (decode_incremental decode escape raw).1 ≤ length raw
  unfolding decode_incremental
  decode_incremental-le [] = omega arith
  decode_incremental-le (b ∷ raw) = try_trims-le (b ∷ raw) (suc (min 3 (length (b ∷ raw)))) 0

  -- The text is the decoding of these bytes, or shows them escaped.
  abbrev pub Shows : List ℕ → Text → Type 0
  Shows bytes text = (decode bytes ≡ some text) ⊎ (text ≡ escape bytes)

  module _ (status : Status) (ended : is_terminal status ≡ true) (file : List ℕ) (cap : ℕ)
      (wide : 4 ≤ cap) where
    abbrev chunk : ℕ → List ℕ
    chunk off = fetch_chunk file off cap

    -- One call of `poll` at an offset.
    abbrev pub poll_at : ℕ → Text × ℕ
    poll_at off = poll_chunk decode escape status (some (length file)) off (chunk off)

    length-chunk : (off : ℕ) → length (chunk off) ≡ min cap (length file - off)
    unfolding fetch_chunk
    length-chunk off =
        omega
          (arith, length-take (min cap (length file - off)) (drop off file), length-drop off file)

    -- The first bytes of a chunk are those of the file from the offset on.
    take-chunk :
        (off c : ℕ)
        → c ≤ length (chunk off)
        → take (off + c - off) (drop off file) ≡ take c (chunk off)
    unfolding fetch_chunk
    take-chunk off c h =
        let le : c ≤ min cap (length file - off) = omega (arith, length-chunk off) in
        let e : off + c - off ≡ c = omega arith in
        rw e (sym (take-take c (min cap (length file - off)) (drop off file) le))

    abbrev Advances : ℕ → Text × ℕ → Type 0
    Advances off (text, next) =
        (off < next) × (next ≤ length file) × Shows (take (next - off) (drop off file)) text

    -- All of the chunk, escaped.
    escaped-Advances :
        (off : ℕ) → off < length file → Advances off (escape (chunk off), off + length (chunk off))
    escaped-Advances off inside =
        let n = length-chunk off in
        let all : take (length (chunk off)) (chunk off) ≡ chunk off =
          take_all (length (chunk off)) (chunk off) (omega arith) in
        (
          omega (arith, n),
          omega (arith, n),
          inr (ap escape (sym (take-chunk off (length (chunk off)) (omega arith) ∙ all))),
        )

    -- A decoding of the first bytes of the chunk.
    decoded-Advances :
        (off c : ℕ) (text : Text)
        → off < length file
        → 0 < c
        → c ≤ length (chunk off)
        → decode (take c (chunk off)) ≡ some text
        → Advances off (text, off + c)
    decoded-Advances off c text inside pos le d =
        (omega arith, omega (arith, length-chunk off), inl (ap decode (take-chunk off c le) ∙ d))

    chunk-some : (off : ℕ) → off < length file → chunk off ≢ []
    chunk-some off inside e =
        let n : length (chunk off) ≡ 0 = ap length e in omega (arith, length-chunk off)

    -- A call advances, not past the end, and shows just the bytes that it has passed.
    poll-Advances : (off : ℕ) → off < length file → Advances off (poll_at off)
    unfolding poll_chunk
    poll-Advances off inside =
        let raw = chunk off in
        let n = length-chunk off in
        let (text, c) = decode_incremental decode escape raw in
        let le = decode_incremental-le raw in
        elim (Bool-cases
          (ltb c (length raw) && is_terminal status && leb (length file) (off + length raw))) [
            | inl flush ↦ rw (poll_chunk, flush) (escaped-Advances off inside)
            | inr deferred ↦
                elim (decode_incremental_lem decode escape raw (chunk-some off inside)) [
                  | inl (d, close) ↦
                      let pos : 0 < c = ground (arith, ended, deferred, close, n, wide, inside) in
                      rw (poll_chunk, deferred) (decoded-Advances off c text inside pos le d)
                  | inr (bad, e) ↦
                      let e0 = ap (λ r. r.0) e in
                      let e1 = ap (λ r. r.1) e in
                      rw (poll_chunk, deferred, e0, e1) (escaped-Advances off inside)
                ]
          ]

    -- The texts and offsets of the calls, one after the other; `none` means that the calls ran out.
    unfoldable pub follow : ℕ → ℕ → Option (List (Text × ℕ))
    follow zero off = none
    follow (suc calls) off =
        let rest = follow calls (poll_at off).1 in
        if has_more (some (length file)) (poll_at off).1
        then elim rest [ none ↦ none | some outs ↦ some (poll_at off ∷ outs) ]
        else some (poll_at off ∷ [])

    -- The calls show the file from the offset to its end, each byte once and in order.
    abbrev pub Covers : ℕ → List (Text × ℕ) → Type 0
    Covers off [] = off ≡ length file
    Covers off ((text, next) ∷ outs) =
        (off < next) × Shows (take (next - off) (drop off file)) text × Covers next outs

    -- Polling an ended job from an offset within its output, with room for a character in each call,
    -- ends, and shows the rest of the output, each byte once and in order.
    pub follow_lem :
        (calls off : ℕ)
        → off < length file
        → length file - off < calls
        → (outs : List (Text × ℕ)) × (follow calls off ≡ some outs) × Covers off outs
    unfolding follow
    follow_lem zero off inside h = absurd (omega arith)
    follow_lem (suc calls) off inside h =
        let (up, bound, shows) = poll-Advances off inside in
        elim (Bool-cases (ltb (poll_at off).1 (length file))) [
          | inl more ↦
              let (outs, e, covers) =
                follow_lem calls (poll_at off).1 (ground arith) (omega arith) in
              (poll_at off ∷ outs, rw (follow, more, e) refl, (up, shows, covers))
          | inr done ↦ (poll_at off ∷ [], rw (follow, done) refl, (up, shows, ground arith))
        ]
