-- ===== src/Query/Parse/Fields.antt =====
-- The loop over all tokens of a printed filter.
use shellspectre.Base.{
  ℕ, ◌^◌, ◌<◌, ◌≡◌, refl, ap, ◌∙◌, arith, Bool, true, false, Option, none, some, List, [], ◌++◌, ℤ,
  Text, parse_u32, parse_i32,
}
use mathlib.Core.List.{append_assoc}
use shellspectre.Query.Parse.{
  FilterValue, EventFilter, Keyword, user_key, comm_key, exit_key, session_key, pid_key, ppid_key,
  gid_key, euid_key, tty_key, file_key, cmd_key, wrap, apply_keyword, Parsing, parse_tokens,
  start_parsing,
}
use shellspectre.Query.Parse.Print.{decimal, decimal_int, tokens_of, filter_tokens, as_is}
use shellspectre.Query.Parse.Tokens.{parse_u32-decimal, parse_i32-decimal_int, IsI32}
use shellspectre.Query.Parse.Rounds.{parse_token-token}

wrap-fields {ℓ} : {A : Type ℓ} (fv : FilterValue A) → wrap fv.negated fv.value ≡ fv
unfolding wrap shellspectre.Query.Parse.new_value shellspectre.Query.Parse.negated_value
wrap-fields {A = A} fv = go fv.negated fv.value
  where
    go : (neg : Bool) (v : A) → wrap neg v ≡ record { value = v; negated = neg }
    go true v = refl
    go false v = refl

-- What holds of the value, if there is one.
abbrev pub OnValue {ℓ} : {A : Type ℓ} → (A → Type 0) → Option (FilterValue A) → Type 0
OnValue P none = Unit
OnValue P (some fv) = P fv.value

abbrev pub IsU32 : ℕ → Type 0
IsU32 n = n < 2 ^ 32

-- A state of the loop that sets the field's value for the keyword, after `text` has been read.
abbrev Sets {ℓ} :
    {A : Type ℓ} → Keyword → (Text → Option A) → (Option (FilterValue A) → Parsing) → Type ℓ
Sets {A} k read set =
    (neg : Bool) (s : Text) (v : A)
    → read s ≡ some v
    → record (set none) { filter = apply_keyword k neg s (set none).filter }
      ≡ set (some (wrap neg v))

field_step {ℓ} :
    {A : Type ℓ} (read : Text → Option A) (show : A → Text) (P : A → Type 0)
    → ((v : A) → P v → read (show v) ≡ some v)
    → (k : Keyword) (set : Option (FilterValue A) → Parsing) → Sets k read set
    → (o : Option (FilterValue A)) (rest : List Text) → OnValue P o
    → parse_tokens (tokens_of show k o ++ rest) (set none) ≡ parse_tokens rest (set o)
unfolding parse_tokens tokens_of
field_step read show P back k set sets none rest h = refl
field_step read show P back k set sets (some fv) rest h = ap (parse_tokens rest) (
    parse_token-token k fv.negated (show fv.value) (set none)
    ∙ sets fv.negated (show fv.value) fv.value (back fv.value h)
    ∙ ap (λ w. set (some w)) (wrap-fields fv))

-- The loop's state once the given fields have been read.
so_far :
    Text
    → Option (FilterValue Text)
    → Option (FilterValue Text)
    → Option (FilterValue ℤ)
    → Option (FilterValue Text)
    → Option (FilterValue ℕ)
    → Option (FilterValue ℕ)
    → Option (FilterValue ℕ)
    → Option (FilterValue ℕ)
    → Option (FilterValue ℕ)
    → Option (FilterValue Text)
    → Option (FilterValue Text)
    → Parsing
so_far query user comm exit session pid ppid gid euid tty file cmd = record {
  filter = record {
    raw = some query;
    warnings = [];
    user = user;
    comm = comm;
    exit_code = exit;
    session_id = session;
    pid = pid;
    ppid = ppid;
    gid = gid;
    euid = euid;
    tty = tty;
    file = file;
    cmd = cmd;
    text = none;
  };
  bare_words = [];
}

text_step :
    (k : Keyword) (set : Option (FilterValue Text) → Parsing)
    → Sets k some set
    → (o : Option (FilterValue Text)) (rest : List Text)
    → parse_tokens (tokens_of as_is k o ++ rest) (set none) ≡ parse_tokens rest (set o)
text_step k set sets o rest =
    field_step some as_is (λ _. Unit) (λ v h. refl) k set sets o rest (always o)
  where
    always : (o : Option (FilterValue Text)) → OnValue (λ _. Unit {0}) o
    always none = tt
    always (some fv) = tt

u32_step :
    (k : Keyword) (set : Option (FilterValue ℕ) → Parsing)
    → Sets k parse_u32 set
    → (o : Option (FilterValue ℕ)) (rest : List Text) → OnValue IsU32 o
    → parse_tokens (tokens_of decimal k o ++ rest) (set none) ≡ parse_tokens rest (set o)
u32_step = field_step parse_u32 decimal IsU32 parse_u32-decimal

i32_step :
    (k : Keyword) (set : Option (FilterValue ℤ) → Parsing)
    → Sets k parse_i32 set
    → (o : Option (FilterValue ℤ)) (rest : List Text) → OnValue IsI32 o
    → parse_tokens (tokens_of decimal_int k o ++ rest) (set none) ≡ parse_tokens rest (set o)
i32_step = field_step parse_i32 decimal_int IsI32 parse_i32-decimal_int

-- The numbers of the filter are in the range of their types.
abbrev pub AreInRange : EventFilter → Type 0
AreInRange f =
    OnValue IsI32 f.exit_code
    × OnValue IsU32 f.pid
    × OnValue IsU32 f.ppid
    × OnValue IsU32 f.gid
    × OnValue IsU32 f.euid
    × OnValue IsU32 f.tty

user_read :
    (query : Text) (f : EventFilter) (rest : List Text)
    → parse_tokens
        (tokens_of as_is user_key f.user ++ rest)
        (so_far query none none none none none none none none none none none)
      ≡ parse_tokens rest (so_far query f.user none none none none none none none none none none)
unfolding so_far apply_keyword
user_read query f rest =
    text_step user_key (λ o. so_far query o none none none none none none none none none none)
      (λ neg s v e. ground arith) f.user rest

comm_read :
    (query : Text) (f : EventFilter) (rest : List Text)
    → parse_tokens
        (tokens_of as_is comm_key f.comm ++ rest)
        (so_far query f.user none none none none none none none none none none)
      ≡ parse_tokens rest (so_far query f.user f.comm none none none none none none none none none)
unfolding so_far apply_keyword
comm_read query f rest =
    text_step comm_key (λ o. so_far query f.user o none none none none none none none none none)
      (λ neg s v e. ground arith) f.comm rest

exit_code_read :
    (query : Text) (f : EventFilter) (rest : List Text)
    → OnValue IsI32 f.exit_code
    → parse_tokens
        (tokens_of decimal_int exit_key f.exit_code ++ rest)
        (so_far query f.user f.comm none none none none none none none none none)
      ≡ parse_tokens rest
          (so_far query f.user f.comm f.exit_code none none none none none none none none)
unfolding so_far apply_keyword
exit_code_read query f rest h =
    i32_step exit_key (λ o. so_far query f.user f.comm o none none none none none none none none)
      (λ neg s v e. rw e) f.exit_code rest h

session_read :
    (query : Text) (f : EventFilter) (rest : List Text)
    → parse_tokens
        (tokens_of as_is session_key f.session_id ++ rest)
        (so_far query f.user f.comm f.exit_code none none none none none none none none)
      ≡ parse_tokens rest
          (so_far query f.user f.comm f.exit_code f.session_id none none none none none none none)
unfolding so_far apply_keyword
session_read query f rest =
    text_step session_key
      (λ o. so_far query f.user f.comm f.exit_code o none none none none none none none)
      (λ neg s v e. ground arith) f.session_id rest

pid_read :
    (query : Text) (f : EventFilter) (rest : List Text)
    → OnValue IsU32 f.pid
    → parse_tokens
        (tokens_of decimal pid_key f.pid ++ rest)
        (so_far query f.user f.comm f.exit_code f.session_id none none none none none none none)
      ≡ parse_tokens rest
          (so_far query f.user f.comm f.exit_code f.session_id f.pid none none none none none none)
unfolding so_far apply_keyword
pid_read query f rest h =
    u32_step pid_key
      (λ o. so_far query f.user f.comm f.exit_code f.session_id o none none none none none none)
      (λ neg s v e. rw e) f.pid rest h

ppid_read :
    (query : Text) (f : EventFilter) (rest : List Text)
    → OnValue IsU32 f.ppid
    → parse_tokens
        (tokens_of decimal ppid_key f.ppid ++ rest)
        (so_far query f.user f.comm f.exit_code f.session_id f.pid none none none none none none)
      ≡ parse_tokens rest (
          so_far query f.user f.comm f.exit_code f.session_id f.pid f.ppid none none none none none)
unfolding so_far apply_keyword
ppid_read query f rest h =
    u32_step ppid_key
      (λ o. so_far query f.user f.comm f.exit_code f.session_id f.pid o none none none none none)
      (λ neg s v e. rw e) f.ppid rest h

gid_read :
    (query : Text) (f : EventFilter) (rest : List Text)
    → OnValue IsU32 f.gid
    → parse_tokens
        (tokens_of decimal gid_key f.gid ++ rest)
        (so_far query f.user f.comm f.exit_code f.session_id f.pid f.ppid none none none none none)
      ≡ parse_tokens rest (
          so_far query f.user f.comm f.exit_code f.session_id f.pid f.ppid f.gid none none none
            none)
unfolding so_far apply_keyword
gid_read query f rest h =
    u32_step gid_key
      (λ o. so_far query f.user f.comm f.exit_code f.session_id f.pid f.ppid o none none none none)
      (λ neg s v e. rw e) f.gid rest h

euid_read :
    (query : Text) (f : EventFilter) (rest : List Text)
    → OnValue IsU32 f.euid
    → parse_tokens
        (tokens_of decimal euid_key f.euid ++ rest)
        (so_far query f.user f.comm f.exit_code f.session_id f.pid f.ppid f.gid none none none none)
      ≡ parse_tokens rest (
          so_far query f.user f.comm f.exit_code f.session_id f.pid f.ppid f.gid f.euid none none
            none)
unfolding so_far apply_keyword
euid_read query f rest h =
    u32_step euid_key
      (λ o. so_far query f.user f.comm f.exit_code f.session_id f.pid f.ppid f.gid o none none none)
      (λ neg s v e. rw e) f.euid rest h

tty_read :
    (query : Text) (f : EventFilter) (rest : List Text)
    → OnValue IsU32 f.tty
    → parse_tokens (tokens_of decimal tty_key f.tty ++ rest) (
        so_far query f.user f.comm f.exit_code f.session_id f.pid f.ppid f.gid f.euid none none
          none)
      ≡ parse_tokens rest (
          so_far query f.user f.comm f.exit_code f.session_id f.pid f.ppid f.gid f.euid f.tty none
            none)
unfolding so_far apply_keyword
tty_read query f rest h =
    u32_step tty_key
      (λ o.
        so_far query f.user f.comm f.exit_code f.session_id f.pid f.ppid f.gid f.euid o none none)
      (λ neg s v e. rw e) f.tty rest h

file_read :
    (query : Text) (f : EventFilter) (rest : List Text)
    → parse_tokens (tokens_of as_is file_key f.file ++ rest) (
        so_far query f.user f.comm f.exit_code f.session_id f.pid f.ppid f.gid f.euid f.tty none
          none)
      ≡ parse_tokens rest (
          so_far query f.user f.comm f.exit_code f.session_id f.pid f.ppid f.gid f.euid f.tty f.file
            none)
unfolding so_far apply_keyword
file_read query f rest =
    text_step file_key
      (λ o.
        so_far query f.user f.comm f.exit_code f.session_id f.pid f.ppid f.gid f.euid f.tty o none)
      (λ neg s v e. ground arith) f.file rest

cmd_read :
    (query : Text) (f : EventFilter) (rest : List Text)
    → parse_tokens (tokens_of as_is cmd_key f.cmd ++ rest) (
        so_far query f.user f.comm f.exit_code f.session_id f.pid f.ppid f.gid f.euid f.tty f.file
          none)
      ≡ parse_tokens rest (
          so_far query f.user f.comm f.exit_code f.session_id f.pid f.ppid f.gid f.euid f.tty f.file
            f.cmd)
unfolding so_far apply_keyword
cmd_read query f rest =
    text_step cmd_key
      (λ o.
        so_far query f.user f.comm f.exit_code f.session_id f.pid f.ppid f.gid f.euid f.tty f.file
          o)
      (λ neg s v e. ground arith) f.cmd rest

-- The tokens of a filter's fields give the filter back.
pub fields_read :
    (query : Text) (f : EventFilter) (rest : List Text)
    → AreInRange f
    → parse_tokens (filter_tokens f ++ rest) (start_parsing query)
      ≡ parse_tokens rest (record {
        filter = record f { raw = some query; warnings = []; text = none };
        bare_words = [];
      })
unfolding filter_tokens so_far start_parsing shellspectre.Query.Parse.default_filter
fields_read query f rest h =
    let nested : filter_tokens f ++ rest
        ≡ tokens_of as_is user_key f.user
          ++ (tokens_of as_is comm_key f.comm
              ++ (tokens_of decimal_int exit_key f.exit_code
                  ++ (tokens_of as_is session_key f.session_id
                      ++ (tokens_of decimal pid_key f.pid
                          ++ (tokens_of decimal ppid_key f.ppid
                              ++ (tokens_of decimal gid_key f.gid
                                  ++ (tokens_of decimal euid_key f.euid
                                      ++ (tokens_of decimal tty_key f.tty
                                          ++ (tokens_of as_is file_key f.file
                                              ++ (tokens_of as_is cmd_key f.cmd ++ rest)))))))))) =
      simp append_assoc in
    ap (λ t. parse_tokens t (start_parsing query)) nested
    ∙ user_read query f _
    ∙ comm_read query f _
    ∙ exit_code_read query f _ h.0
    ∙ session_read query f _
    ∙ pid_read query f _ h.1
    ∙ ppid_read query f _ h.2
    ∙ gid_read query f _ h.3
    ∙ euid_read query f _ h.4
    ∙ tty_read query f _ h.5
    ∙ file_read query f _
    ∙ cmd_read query f _
