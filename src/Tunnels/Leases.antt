-- ===== src/Tunnels/Leases.antt =====
-- Where the connections of the tunnels of portal_mcp_server/network_tools.py are.
use portal_mcp_server.Base.{
  ℕ, ◌+◌, ◌≡◌, refl, ap, subst, ◌∙◌, inl, inr, Text, text_eq, text_eq_iff, text_has_eq, nat_beq,
  none, some, List, [], ◌∷◌, ◌++◌, arith, if◌then◌else◌, Bool-cases, Option-cases,
}
use portal_mcp_server.Base.Dicts.{Dict, lookup, insert, erase, Unique, Unique-insert, Unique-erase}
use portal_mcp_server.Tunnels.{
  ActiveTunnel, TunnelManager, start_close, TunnelStep, acquires, registers, gives_up, starts_close,
  ends_close, TunnelReach, begin, next,
}

-- How often a connection stands in a list.
abbrev pub count : ℕ → List ℕ → ℕ
count c [] = 0
count c (d ∷ ds) = (if nat_beq c d then 1 else 0) + count c ds

-- How many tunnels go over a connection.
abbrev pub tunnels_over : ℕ → Dict Text ActiveTunnel → ℕ
tunnels_over c [] = 0
tunnels_over c ((tid, t) ∷ ts) = (if nat_beq c t.conn then 1 else 0) + tunnels_over c ts

count-out :
    (c d : ℕ) (before after : List ℕ)
    → count c (before ++ d ∷ after) ≡ (if nat_beq c d then 1 else 0) + count c (before ++ after)
count-out c d [] after = refl
count-out c d (b ∷ before) after = omega (arith, count-out c d before after)

tunnels_over-insert :
    (c : ℕ) (tid : Text) (t : ActiveTunnel) (ts : Dict Text ActiveTunnel)
    → lookup tid ts ≡ none
    → tunnels_over c (insert tid t ts) ≡ (if nat_beq c t.conn then 1 else 0) + tunnels_over c ts
unfolding lookup insert
tunnels_over-insert c tid t [] h = refl
tunnels_over-insert c tid t ((j, s) ∷ ts) h = elim (Bool-cases (text_eq j tid)) [
  | inl e ↦ cc (rw e at h)
  | inr e ↦ rw e (omega (arith, tunnels_over-insert c tid t ts (rw e at h)))
]

erase_absent : (tid : Text) (ts : Dict Text ActiveTunnel) → lookup tid ts ≡ none → erase tid ts ≡ ts
unfolding lookup erase
erase_absent tid [] h = refl
erase_absent tid ((j, s) ∷ ts) h = elim (Bool-cases (text_eq j tid)) [
  | inl e ↦ cc (rw e at h)
  | inr e ↦ rw e (ap (◌∷◌ (j, s)) (erase_absent tid ts (rw e at h)))
]

tunnels_over-erase :
    (c : ℕ) (tid : Text) (t : ActiveTunnel) (ts : Dict Text ActiveTunnel)
    → Unique ts
    → lookup tid ts ≡ some t
    → tunnels_over c ts ≡ (if nat_beq c t.conn then 1 else 0) + tunnels_over c (erase tid ts)
unfolding lookup erase
tunnels_over-erase c tid t [] u h = cc
tunnels_over-erase c tid t ((j, s) ∷ ts) (fresh, u) h = elim (Bool-cases (text_eq j tid)) [
  | inl e ↦
      let same : s ≡ t = cc (rw e at h) in
      let key : j ≡ tid = (text_eq_iff j tid).0 e in
      let gone : erase tid ts ≡ ts =
        erase_absent tid ts (subst (λ k. lookup k ts ≡ none) key fresh) in
      rw (e, gone) (ap (λ r. (if nat_beq c r.conn then 1 else 0) + tunnels_over c ts) same)
  | inr e ↦ rw e (omega (arith, tunnels_over-erase c tid t ts u (rw e at h)))
]

-- Each connection is held, or given back, as often as it was acquired.
pub record Accounted (m : TunnelManager) : Type 0 where
  pub unique : Unique m.tunnels
  pub balance :
      (c : ℕ)
      → count c m.acquired
        ≡ count c m.opening + tunnels_over c m.tunnels + count c m.closing + count c m.released

some-injective : {a b : TunnelManager} → some a ≡ some b → a ≡ b
some-injective h = cc

start_close-Accounted :
    (tid : Text) (m u : TunnelManager) → start_close tid m ≡ some u → Accounted m → Accounted u
unfolding start_close
start_close-Accounted tid m u e v = elim (Option-cases (lookup tid m.tunnels)) [
  | inl missing ↦ cc (rw (start_close, missing) at e)
  | inr (t, found) ↦
      let w : Accounted (record m { tunnels = erase tid m.tunnels; closing = t.conn ∷ m.closing }) =
        record {
          unique = Unique-erase tid m.tunnels v.unique;
          balance = λ c.
              let out = tunnels_over-erase c tid t m.tunnels v.unique found in
              omega (arith, v.balance c, out);
        } in
      subst Accounted (some-injective (rw (start_close, found) at e)) w
]

TunnelStep-Accounted : {m u : TunnelManager} → TunnelStep m u → Accounted m → Accounted u
TunnelStep-Accounted {m} (acquires conn e) v =
    rw e (record { unique = v.unique; balance = λ c. omega (arith, v.balance c) })
TunnelStep-Accounted {m} (registers tid t before after o fresh e) v = rw e (record {
  unique = Unique-insert tid t m.tunnels v.unique;
  balance = λ c.
      let out = ap (count c) o ∙ count-out c t.conn before after in
      omega (arith, v.balance c, out, tunnels_over-insert c tid t m.tunnels fresh);
})
TunnelStep-Accounted {m} (gives_up conn before after o e) v = rw e (record {
  unique = v.unique;
  balance = λ c.
      let out = ap (count c) o ∙ count-out c conn before after in omega (arith, v.balance c, out);
})
TunnelStep-Accounted {m} {u} (starts_close tid e) v = start_close-Accounted tid m u e v
TunnelStep-Accounted {m} (ends_close conn before after o e) v = rw e (record {
  unique = v.unique;
  balance = λ c.
      let out = ap (count c) o ∙ count-out c conn before after in omega (arith, v.balance c, out);
})

TunnelReach-Accounted : {m : TunnelManager} → TunnelReach m → Accounted m
unfolding lookup
TunnelReach-Accounted begin = record { unique = tt; balance = λ c. refl }
TunnelReach-Accounted (next r st) = TunnelStep-Accounted st (TunnelReach-Accounted r)

-- However openings and closings of tunnels interleave, if none is under way and no tunnel is left, then
-- each connection has been released just as often as it was acquired.
pub tunnels_release_all :
    {m : TunnelManager}
    → TunnelReach m
    → m.opening ≡ []
    → m.closing ≡ []
    → m.tunnels ≡ []
    → (c : ℕ) → count c m.released ≡ count c m.acquired
tunnels_release_all {m} r o k t c =
    let b = (TunnelReach-Accounted r).balance c in
    let o0 : count c m.opening ≡ 0 = ap (count c) o in
    let k0 : count c m.closing ≡ 0 = ap (count c) k in
    let t0 : tunnels_over c m.tunnels ≡ 0 = ap (tunnels_over c) t in omega (arith, b, o0, k0, t0)
