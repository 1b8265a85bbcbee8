-- ===== src/Secrets/Stdin.antt =====
-- How a command under sudo gets its secrets on standard input: `sudo_stdin_secret_script` and
-- `sudo_stdin_secret_values` of portal_mcp_server/secrets_store.py. `base64` is a parameter.
use portal_mcp_server.Base.{
  is_empty, ◌&&◌, ◌≡◌, refl, ap, ◌∙◌, Text, codes, false, List, [], ◌∷◌, ◌++◌, map, append_assoc,
  nat_beq, if◌then◌else◌, All, join,
}

-- The lines of the script that read one variable.
abbrev pub read_lines : Text → List Text
read_lines n =
    (codes "IFS= read -r __b64_" ++ n)
    ∷ (n
        ++ codes "=$(base64 -d <<<\"$__b64_"
        ++ n
        ++ codes "\" 2>/dev/null || base64 -D <<<\"$__b64_"
        ++ n
        ++ codes "\")")
    ∷ []

-- `sep.join(parts)`
abbrev pub join_with : Text → List Text → Text
join_with sep [] = []
join_with sep (x ∷ []) = x
join_with sep (x ∷ y ∷ xs) = x ++ sep ++ join_with sep (y ∷ xs)

-- `sudo_stdin_secret_script`
unfoldable pub sudo_stdin_secret_script : Text → List Text → Text
sudo_stdin_secret_script command [] = command
sudo_stdin_secret_script command (n ∷ ns) = join_with (codes "\n") (
    join (map read_lines (n ∷ ns))
    ++ (codes "export " ++ join_with (codes " ") (n ∷ ns)) ∷ command ∷ [])

-- `sudo_stdin_secret_values`
unfoldable pub sudo_stdin_secret_values : (Text → Text) → List Text → Text
sudo_stdin_secret_values encode [] = []
sudo_stdin_secret_values encode (v ∷ vs) = encode v ++ b'\n' ∷ sudo_stdin_secret_values encode vs

-- A line of the input and what follows it, as `read -r` takes it.
abbrev pub read_line : Text → Text × Text
read_line [] = ([], [])
read_line (c ∷ s) =
    let (line, rest) = read_line s in if nat_beq c b'\n' then ([], s) else (c ∷ line, rest)

-- `s.rstrip("\n")`, and what a command substitution leaves of an output.
abbrev pub rstrip_newlines : Text → Text
rstrip_newlines [] = []
rstrip_newlines (c ∷ s) =
    let rest = rstrip_newlines s in if nat_beq c b'\n' && is_empty rest then [] else c ∷ rest

-- What the shell's variables hold after as many reads, each decoded in a command substitution, which
-- drops the line ends at the end, and the input that is left for the command.
abbrev pub read_all : (Text → Text) → List Text → Text → List (Text × Text) × Text
read_all decode [] input = ([], input)
read_all decode (n ∷ ns) input =
    let (line, rest) = read_line input in
    let (variables, left) = read_all decode ns rest in
    ((n, rstrip_newlines (decode line)) ∷ variables, left)

-- No line end.
abbrev pub OneLine : Text → Type 0
OneLine = All (λ c. nat_beq c b'\n' ≡ false)

pub read_line-OneLine :
    (line rest : Text) → OneLine line → read_line (line ++ b'\n' ∷ rest) ≡ (line, rest)
read_line-OneLine [] rest one = refl
read_line-OneLine (c ∷ line) rest (differs, one) =
    rw (differs, read_line-OneLine line rest one) refl

abbrev pub names_of : List (Text × Text) → List Text
names_of = map (λ entry. entry.0)

abbrev pub values_of : List (Text × Text) → List Text
values_of = map (λ entry. entry.1)

-- The entries as the script delivers them: each value without the line ends at its end.
abbrev pub delivered : List (Text × Text) → List (Text × Text)
delivered = map (λ entry. (entry.0, rstrip_newlines entry.1))

-- Where an encoding has no line end and those of the values decode to them, the reads of the script give each
-- name its value, with the line ends inside it but without those at its end, and leave the rest of the
-- input to the command.
pub read_all-sudo_stdin_secret_values :
    (encode decode : Text → Text)
    → ((v : Text) → OneLine (encode v))
    → (env : List (Text × Text)) (rest : Text)
    → All (λ entry. decode (encode entry.1) ≡ entry.1) env
    → read_all decode (names_of env) (sudo_stdin_secret_values encode (values_of env) ++ rest)
      ≡ (delivered env, rest)
unfolding sudo_stdin_secret_values
read_all-sudo_stdin_secret_values encode decode one [] rest back = refl
read_all-sudo_stdin_secret_values encode decode one ((n, v) ∷ env) rest (decoded, back) =
    let later = sudo_stdin_secret_values encode (values_of env) in
    let taken : read_line ((encode v ++ b'\n' ∷ later) ++ rest) ≡ (encode v, later ++ rest) =
      ap read_line (append_assoc (encode v) (b'\n' ∷ later) rest)
      ∙ read_line-OneLine (encode v) (later ++ rest) (one v) in
    rw (taken, read_all-sudo_stdin_secret_values encode decode one env rest back, decoded) refl
