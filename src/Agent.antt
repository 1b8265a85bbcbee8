-- ===== src/Agent.antt =====
-- The cache of portal_mcp_server/credential_agent.py: `CredentialAgent.dispatch` and its six
-- operations. Times are those of the monotonic clock, in units of which a second has `second`; the
-- SHA-256 fingerprint is the parameter `sha`.
pub mod Ops
pub mod View
pub mod Dispatch
pub mod Keys
pub mod History
pub mod Wire
pub mod Client
pub mod Exchange
use portal_mcp_server.Base.{
  ℕ, ◌+◌, ◌-◌, ◌/◌, ◌*◌, ℤ, pos, negsuc, Text, text_eq, text_has_eq, ◌==◌, EqTest, Bool, true,
  false, not, ◌&&◌, Option, none, some, List, [], ◌∷◌, is_empty, strip, leb, ltb, nat_beq, arith,
  text_eq_iff, codes, ◌≡◌, ◌↔◌, if◌then◌else◌, length,
}
use portal_mcp_server.Base.Dicts.{Dict, lookup, insert, erase, retain}

-- `_VALID_KINDS`
pub data Kind : Type 0 where
  passphrase secret sudo ssh : Kind

abbrev pub kind_eq : Kind → Kind → Bool
kind_eq passphrase passphrase = true
kind_eq secret secret = true
kind_eq sudo sudo = true
kind_eq ssh ssh = true
kind_eq _ _ = false

pub kind_eq_iff : (a b : Kind) → (kind_eq a b ≡ true) ↔ (a ≡ b)
kind_eq_iff passphrase passphrase = ground arith
kind_eq_iff passphrase secret = ground arith
kind_eq_iff passphrase sudo = ground arith
kind_eq_iff passphrase ssh = ground arith
kind_eq_iff secret passphrase = ground arith
kind_eq_iff secret secret = ground arith
kind_eq_iff secret sudo = ground arith
kind_eq_iff secret ssh = ground arith
kind_eq_iff sudo passphrase = ground arith
kind_eq_iff sudo secret = ground arith
kind_eq_iff sudo sudo = ground arith
kind_eq_iff sudo ssh = ground arith
kind_eq_iff ssh passphrase = ground arith
kind_eq_iff ssh secret = ground arith
kind_eq_iff ssh sudo = ground arith
kind_eq_iff ssh ssh = ground arith

-- A key of the cache: a kind, and a host or the name of a secret.
pub record Key : Type 0 where
  pub kind : Kind
  pub name : Text

abbrev pub key_eq : Key → Key → Bool
key_eq a b = kind_eq a.kind b.kind && text_eq a.name b.name

pub key_eq_iff : (a b : Key) → (key_eq a b ≡ true) ↔ (a ≡ b)
key_eq_iff a b = ground (arith, kind_eq_iff a.kind b.kind, text_eq_iff a.name b.name)

instance abbrev pub key_has_eq : EqTest Key
key_has_eq = record { test = key_eq; decides = key_eq_iff }

-- `_cache`: the value and its expiry.
abbrev pub Cache : Type 0
Cache = Dict Key (Text × ℕ)

-- What `float(msg.get("ttl", …))` gives; a number that is not finite or not positive is `unusable`.
pub data Ttl : Type 0 where
  absent unusable unreadable : Ttl
  lasting : ℕ → Ttl

-- A request. A field that is missing or no text is `none`, and so is a kind that is not valid.
pub record Message : Type 0 where
  pub op : Option Text
  pub kind : Option Kind
  pub name : Option Text
  pub host : Option Text
  pub value : Option Text
  pub password : Option Text
  pub ttl : Ttl

pub data Fault : Type 0 where
  invalid_kind invalid_operation key_required key_and_value_required unreadable_ttl : Fault

-- A listed credential: its key, its fingerprint and its whole seconds left.
pub record Entry : Type 0 where
  pub key : Text
  pub fingerprint : Text
  pub ttl_remaining : ℕ

pub data Response : Type 0 where
  done missing : Response
  found : Text → Response
  described : Text → ℕ → Response
  listed : List Entry → Response
  counted : List (Kind × ℕ) → Response
  failed : Fault → Response
