-- ===== src/Analyzer/Eval/Options.antt =====
-- The command line of the evaluation harness: `main` of analyzer/src/eval.cpp.
use pqc_edr.Base.{
  ℕ, Bool, true, false, ◌&&◌, Option, none, some, List, [], ◌∷◌, ◌++◌, get_or, ◌==◌, is_empty,
  if◌then◌else◌,
}
use pqc_edr.Base.Words.{Bytes}
use pqc_edr.Base.Text.{text, bytes_eq}

pub record Options : Type 0 where
  pub benign : List Bytes
  pub attack : List Bytes
  pub llm_mode : Bytes
  pub json_out : Bytes
  pub cap : ℕ
  pub gate : Bool

abbrev pub default_options : Options
default_options = record {
  benign = [];
  attack = [];
  llm_mode = text "mock";
  json_out = [];
  cap = 2000;
  gate = false;
}

-- What the next argument is taken for: an option, the value of one, or one more path of a corpus.
pub data Waits : Type 0 where
  for_option for_mode for_cap for_json for_benign for_attack : Waits

-- Why `main` returns 2, or the exception of `std::stoul`, which nothing catches.
pub data Refusal : Type 0 where
  no_value bad_number no_corpus no_key unknown_mode : Refusal
  unknown_argument : Bytes → Refusal

pub data Next : Type 0 where
  go : Waits → Options → Next
  stop : Refusal → Next

unfoldable pub take_option : Bytes → Options → Next
take_option a o =
    if bytes_eq a (text "--benign")
    then go for_benign o
    else if bytes_eq a (text "--attack")
    then go for_attack o
    else if bytes_eq a (text "--llm")
    then go for_mode o
    else if bytes_eq a (text "--max-llm-calls")
    then go for_cap o
    else if bytes_eq a (text "--json")
    then go for_json o
    else if bytes_eq a (text "--gate")
    then go for_option (record o { gate = true })
    else stop (unknown_argument a)

-- `argv[i + 1][0] == '-'`
abbrev pub begins_option : Bytes → Bool
begins_option a = get_or a 0 0 == 45

abbrev pub set_cap : Options → Option ℕ → Next
set_cap o none = stop bad_number
set_cap o (some v) = go for_option (record o { cap = v })

-- One argument. `stoul` is the conversion, `none` where it throws.
unfoldable pub take_argument : (Bytes → Option ℕ) → Waits → Bytes → Options → Next
take_argument stoul for_option a o = take_option a o
take_argument stoul for_mode a o = go for_option (record o { llm_mode = a })
take_argument stoul for_cap a o = set_cap o (stoul a)
take_argument stoul for_json a o = go for_option (record o { json_out = a })
take_argument stoul for_benign a o =
    if begins_option a
    then take_option a o
    else go for_benign (record o { benign = o.benign ++ a ∷ [] })
take_argument stoul for_attack a o =
    if begins_option a
    then take_option a o
    else go for_attack (record o { attack = o.attack ++ a ∷ [] })

-- Which client the harness asks.
pub data Client : Type 0 where
  mock_client : Client
  real_client : Bytes → Client

pub data Parsed : Type 0 where
  refused : Refusal → Parsed
  accepted : Options → Client → Parsed

abbrev pub with_key : Options → Option Bytes → Parsed
with_key o none = refused no_key
with_key o (some key) = if is_empty key then refused no_key else accepted o (real_client key)

-- What follows the loop, given the key in the environment.
unfoldable pub choose_client : Option Bytes → Options → Parsed
choose_client key o =
    if is_empty o.benign && is_empty o.attack
    then refused no_corpus
    else if bytes_eq o.llm_mode (text "real")
    then with_key o key
    else if bytes_eq o.llm_mode (text "mock")
    then accepted o mock_client
    else refused unknown_mode

unfoldable pub end_of_arguments : Option Bytes → Waits → Options → Parsed
end_of_arguments key for_mode o = refused no_value
end_of_arguments key for_cap o = refused no_value
end_of_arguments key for_json o = refused no_value
end_of_arguments key waits o = choose_client key o

unfoldable pub parse_loop :
    (Bytes → Option ℕ) → Option Bytes → List Bytes → Waits → Options → Parsed
parse_loop stoul key [] waits o = end_of_arguments key waits o
parse_loop stoul key (a ∷ rest) waits o = elim (take_argument stoul waits a o) [
  | stop why ↦ refused why
  | go waits' o' ↦ parse_loop stoul key rest waits' o'
]

abbrev pub parse_args : (Bytes → Option ℕ) → Option Bytes → List Bytes → Parsed
parse_args stoul key argv = parse_loop stoul key argv for_option default_options
