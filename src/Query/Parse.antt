-- ===== src/Query/Parse.antt =====
-- The filter of a query string: shspectr-web/src/domain/filter.rs.
pub mod Print
pub mod Tokens
pub mod Rounds
pub mod Fields
pub mod RoundTrip
use shellspectre.Base.{
  ℕ, Bool, true, false, not, ◌&&◌, ◌||◌, Option, none, some, List, [], ◌∷◌, ◌++◌, ℤ, Text, codes,
  text_eq, strip_prefix, is_empty, is_some, if◌then◌else◌, trim, split_whitespace, split_once,
  contains_char, join, parse_u32, parse_i32,
}
use shellspectre.Query.{suggest_keyword}

pub record FilterValue {ℓ} (A : Type ℓ) : Type ℓ where
  pub value : A
  pub negated : Bool

-- `FilterValue::new` and `FilterValue::negated`
pub new_value {ℓ} : {A : Type ℓ} → A → FilterValue A
new_value v = record { value = v; negated = false }

pub negated_value {ℓ} : {A : Type ℓ} → A → FilterValue A
negated_value v = record { value = v; negated = true }

pub record EventFilter : Type 0 where
  pub raw : Option Text
  pub warnings : List Text
  pub user : Option (FilterValue Text)
  pub comm : Option (FilterValue Text)
  pub exit_code : Option (FilterValue ℤ)
  pub session_id : Option (FilterValue Text)
  pub pid : Option (FilterValue ℕ)
  pub ppid : Option (FilterValue ℕ)
  pub gid : Option (FilterValue ℕ)
  pub euid : Option (FilterValue ℕ)
  pub tty : Option (FilterValue ℕ)
  pub file : Option (FilterValue Text)
  pub cmd : Option (FilterValue Text)
  pub text : Option Text

pub default_filter : EventFilter
default_filter = record {
  raw = none;
  warnings = [];
  user = none;
  comm = none;
  exit_code = none;
  session_id = none;
  pid = none;
  ppid = none;
  gid = none;
  euid = none;
  tty = none;
  file = none;
  cmd = none;
  text = none;
}

-- `wrap_str`, `wrap_u32` and `wrap_i32`
pub wrap {ℓ} : {A : Type ℓ} → Bool → A → FilterValue A
unfolding new_value negated_value
wrap negated v = if negated then negated_value v else new_value v

-- `"<key>" expects a number, got "<value>"`
pub number_warning : Text → Text → Text
number_warning key value =
    codes "\"" ++ (key ++ (codes "\" expects a number, got \"" ++ (value ++ codes "\"")))

pub warn : Text → EventFilter → EventFilter
warn message filter = record filter { warnings = filter.warnings ++ message ∷ [] }

-- The arms of the `match` on the key.
pub data Keyword : Type 0 where
  user_key comm_key exit_key session_key pid_key ppid_key : Keyword
  gid_key euid_key tty_key file_key cmd_key : Keyword

pub keyword_named : Text → Option Keyword
keyword_named key =
    if text_eq key (codes "user")
    then some user_key
    else if text_eq key (codes "comm")
    then some comm_key
    else if text_eq key (codes "exit")
    then some exit_key
    else if text_eq key (codes "session")
    then some session_key
    else if text_eq key (codes "pid")
    then some pid_key
    else if text_eq key (codes "ppid")
    then some ppid_key
    else if text_eq key (codes "gid")
    then some gid_key
    else if text_eq key (codes "euid")
    then some euid_key
    else if text_eq key (codes "tty")
    then some tty_key
    else if text_eq key (codes "file")
    then some file_key
    else if text_eq key (codes "cmd")
    then some cmd_key
    else none

-- `if let Ok(n) = value.parse() { .. } else { warnings.push(..) }`
set_number {ℓ} :
    {A : Type ℓ} → Option A → (A → EventFilter) → Text → Text → EventFilter → EventFilter
unfolding number_warning warn
set_number (some n) set key value filter = set n
set_number none set key value filter = warn (number_warning key value) filter

-- The body of the arm of a keyword.
pub apply_keyword : Keyword → Bool → Text → EventFilter → EventFilter
unfolding wrap set_number
apply_keyword user_key neg value f = record f { user = some (wrap neg value) }
apply_keyword comm_key neg value f = record f { comm = some (wrap neg value) }
apply_keyword exit_key neg value f =
    set_number (parse_i32 value) (λ n. record f { exit_code = some (wrap neg n) }) (codes "exit")
      value f
apply_keyword session_key neg value f = record f { session_id = some (wrap neg value) }
apply_keyword pid_key neg value f =
    set_number (parse_u32 value) (λ n. record f { pid = some (wrap neg n) }) (codes "pid") value f
apply_keyword ppid_key neg value f =
    set_number (parse_u32 value) (λ n. record f { ppid = some (wrap neg n) }) (codes "ppid") value f
apply_keyword gid_key neg value f =
    set_number (parse_u32 value) (λ n. record f { gid = some (wrap neg n) }) (codes "gid") value f
apply_keyword euid_key neg value f =
    set_number (parse_u32 value) (λ n. record f { euid = some (wrap neg n) }) (codes "euid") value f
apply_keyword tty_key neg value f =
    set_number (parse_u32 value) (λ n. record f { tty = some (wrap neg n) }) (codes "tty") value f
apply_keyword file_key neg value f = record f { file = some (wrap neg value) }
apply_keyword cmd_key neg value f = record f { cmd = some (wrap neg value) }

suggestion_text : Option Text → Text
suggestion_text none = []
suggestion_text (some s) = codes " Did you mean \"" ++ (s ++ codes "\"?")

-- `Unknown filter keyword "<key>"`, with a suggestion if there is one
pub keyword_warning : Text → Text
unfolding suggestion_text
keyword_warning key =
    codes "Unknown filter keyword \""
    ++ (key ++ (codes "\"" ++ suggestion_text (suggest_keyword key)))

starts_with_bang : Text → Bool
starts_with_bang s = is_some (strip_prefix (codes "!") s)

-- What is left behind one `!`: nothing for a bare word.
negated_rest : Text → Option (Bool × Text)
unfolding starts_with_bang
negated_rest stripped =
    if is_empty stripped || starts_with_bang stripped || not (contains_char b':' stripped)
    then none
    else some (true, stripped)

-- `(negated, rest)`, or nothing where the loop pushes the token as a bare word and continues
pub negation : Text → Option (Bool × Text)
unfolding negated_rest
negation token = elim (strip_prefix (codes "!") token) [
  | some stripped ↦ negated_rest stripped
  | none ↦ some (false, token)
]

-- The loop's state: the filter and the bare words.
pub record Parsing : Type 0 where
  pub filter : EventFilter
  pub bare_words : List Text

pub push_bare : Text → Parsing → Parsing
push_bare token p = record p { bare_words = p.bare_words ++ token ∷ [] }

apply_key : Option Keyword → Text → Text → Bool → Text → Parsing → Parsing
unfolding push_bare keyword_warning warn
apply_key (some keyword) token key neg value p = record p {
  filter = apply_keyword keyword neg value p.filter;
}
apply_key none token key neg value p =
    push_bare token (record p { filter = warn (keyword_warning key) p.filter })

apply_pair : Option (Text × Text) → Text → Bool → Parsing → Parsing
unfolding push_bare apply_key
apply_pair none token neg p = push_bare token p
apply_pair (some (key, value)) token neg p = apply_key (keyword_named key) token key neg value p

apply_rest : Option (Bool × Text) → Text → Parsing → Parsing
unfolding push_bare apply_pair
apply_rest none token p = push_bare token p
apply_rest (some (neg, rest)) token p = apply_pair (split_once b':' rest) token neg p

-- The loop's body.
pub parse_token : Text → Parsing → Parsing
unfolding apply_rest
parse_token token p = apply_rest (negation token) token p

pub parse_tokens : List Text → Parsing → Parsing
parse_tokens [] p = p
parse_tokens (token ∷ tokens) p = parse_tokens tokens (parse_token token p)

-- `if !bare_words.is_empty() { filter.text = Some(bare_words.join(" ")) }`
pub finish_parsing : Parsing → EventFilter
finish_parsing p =
    if is_empty p.bare_words
    then p.filter
    else record p.filter { text = some (join (codes " ") p.bare_words) }

pub start_parsing : Text → Parsing
start_parsing query = record {
  filter = record default_filter { raw = some query };
  bare_words = [];
}

-- `EventFilter::parse` behind `query.trim()`
pub parse_trimmed : Text → EventFilter
unfolding finish_parsing parse_tokens start_parsing
parse_trimmed query =
    if is_empty query
    then default_filter
    else finish_parsing (parse_tokens (split_whitespace query) (start_parsing query))

-- `EventFilter::parse`
pub parse : Text → EventFilter
unfolding parse_trimmed
parse query = parse_trimmed (trim query)

-- `EventFilter::is_empty`
pub filter_is_empty : EventFilter → Bool
filter_is_empty f =
    not (is_some f.user)
    && not (is_some f.comm)
    && not (is_some f.exit_code)
    && not (is_some f.session_id)
    && not (is_some f.pid)
    && not (is_some f.ppid)
    && not (is_some f.gid)
    && not (is_some f.euid)
    && not (is_some f.tty)
    && not (is_some f.file)
    && not (is_some f.cmd)
    && not (is_some f.text)
