-- ===== src/Query/Parse/Print.antt =====
-- How a filter is written as a query.
use shellspectre.Base.{
  ℕ, zero, suc, ◌+◌, ◌/◌, ◌%◌, Bool, true, false, Option, none, some, List, [], ◌∷◌, ◌++◌, ℤ, pos,
  negsuc, Text, codes, ltb, if◌then◌else◌,
}
use shellspectre.Query.Parse.{
  FilterValue, EventFilter, Keyword, user_key, comm_key, exit_key, session_key, pid_key, ppid_key,
  gid_key, euid_key, tty_key, file_key, cmd_key,
}

-- Decimal digits. Ten are enough for 32 bits.
unfoldable pub digits : ℕ → ℕ → Text → Text
digits zero n out = out
digits (suc fuel) n out =
    let deeper = digits fuel (n / 10) ((b'0' + n % 10) ∷ out) in
    if ltb n 10 then (b'0' + n % 10) ∷ out else deeper

unfoldable pub decimal : ℕ → Text
unfolding digits
decimal n = digits 10 n []

unfoldable pub decimal_int : ℤ → Text
unfolding decimal
decimal_int (pos n) = decimal n
decimal_int (negsuc n) = b'-' ∷ decimal (suc n)

unfoldable pub key_text : Keyword → Text
key_text user_key = codes "user"
key_text comm_key = codes "comm"
key_text exit_key = codes "exit"
key_text session_key = codes "session"
key_text pid_key = codes "pid"
key_text ppid_key = codes "ppid"
key_text gid_key = codes "gid"
key_text euid_key = codes "euid"
key_text tty_key = codes "tty"
key_text file_key = codes "file"
key_text cmd_key = codes "cmd"

unfoldable pub bang : Bool → Text
bang true = codes "!"
bang false = []

unfoldable pub token : Keyword → Bool → Text → Text
unfolding bang key_text
token keyword neg value = bang neg ++ (key_text keyword ++ (b':' ∷ value))

unfoldable pub tokens_of {ℓ} :
    {A : Type ℓ} → (A → Text) → Keyword → Option (FilterValue A) → List Text
unfolding token
tokens_of show keyword none = []
tokens_of show keyword (some fv) = token keyword fv.negated (show fv.value) ∷ []

abbrev pub as_is : Text → Text
as_is s = s

-- The tokens of a filter's fields.
unfoldable pub filter_tokens : EventFilter → List Text
unfolding tokens_of decimal decimal_int
filter_tokens f =
    tokens_of as_is user_key f.user
    ++ (tokens_of as_is comm_key f.comm
        ++ (tokens_of decimal_int exit_key f.exit_code
            ++ (tokens_of as_is session_key f.session_id
                ++ (tokens_of decimal pid_key f.pid
                    ++ (tokens_of decimal ppid_key f.ppid
                        ++ (tokens_of decimal gid_key f.gid
                            ++ (tokens_of decimal euid_key f.euid
                                ++ (tokens_of decimal tty_key f.tty
                                    ++ (tokens_of as_is file_key f.file
                                        ++ tokens_of as_is cmd_key f.cmd)))))))))
