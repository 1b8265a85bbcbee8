-- ===== src/Audit.antt =====
-- The history of portal_mcp_server/audit.py. Times and results come as texts; whether the line can be
-- written to the log file is an argument.
pub mod Ring
use portal_mcp_server.Base.{
  ℕ, ◌-◌, ℤ, pos, negsuc, suc, zero, Text, text_has_eq, ◌==◌, Bool, true, false, not, ◌&&◌, Option,
  none, some, List, [], ◌∷◌, ◌++◌, Result, ok, err, length, take, drop, keep_if, is_empty, ltb,
  reverse, if◌then◌else◌,
}

-- An entry of the log.
pub record Entry : Type 0 where
  pub timestamp : Text
  pub agent_id : Text
  pub host : Text
  pub operation : Text
  pub command : Text
  pub result : Option Text

abbrev pub history_limit : ℕ
history_limit = 500

-- The ring buffer: a new entry, and the oldest goes if there are too many.
unfoldable pub push : Entry → List Entry → List Entry
push entry history =
    let longer = history ++ entry ∷ [] in
    if ltb history_limit (length longer) then drop 1 longer else longer

-- The entry that `audit_log` makes.
abbrev pub make_entry : Text → Text → Text → Text → Text → Option Text → Entry
make_entry timestamp agent_id host operation command result = record {
  timestamp = timestamp;
  agent_id = agent_id;
  host = host;
  operation = operation;
  command = take 2000 command;
  result = elim result [ none ↦ none | some r ↦ some (take 500 r) ];
}

-- `audit_log`: the history, and whether the operation may go on.
unfoldable pub audit_log :
    Bool → Bool → Entry → List Entry → List Entry × Result (Unit {0}) (Unit {0})
audit_log fail_closed writable entry history =
    (push entry history, if not writable && fail_closed then err tt else ok tt)

-- `xs[-limit:]`, which is all of `xs` for 0.
unfoldable pub last_of : ℤ → List Entry → List Entry
last_of (pos zero) xs = xs
last_of (pos (suc n)) xs = drop (length xs - suc n) xs
last_of (negsuc n) xs = drop (suc n) xs

-- `get_history`
unfoldable pub get_history : ℤ → Text → List Entry → List Entry
get_history limit host_filter history =
    let items =
      if is_empty host_filter then history else keep_if (λ e. e.host == host_filter) history in
    reverse (last_of limit items)
