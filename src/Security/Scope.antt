-- ===== src/Security/Scope.antt =====
-- security/scope_validator: which targets a tool call of a reconnaissance run may name.
-- The parameters of a call are JSON, of which the code asks what stands under a key.
pub mod Address
pub mod Ranges
pub mod Wildcards
pub mod Calls
pub mod Bypass
mod Tests
use Prim.Native.Nat.{bit_and, bit_or}
use qwen_claw.Base.{
  ℕ, zero, suc, ◌+◌, ◌-◌, ◌*◌, ◌%◌, ◌^◌, ltb, leb, ◌==◌, Bool, true, false, not, ◌&&◌, ◌||◌, List,
  [], ◌∷◌, ◌++◌, map, Option, none, some, any_of, length, take, drop, if◌then◌else◌,
}
use qwen_claw.Base.Int.{ℤ, pos, negsuc}
use qwen_claw.Base.Text.{
  Text, codes, text_eq, is_empty, find_text, find_byte, to_lower, getline_tokens,
}
use qwen_claw.Base.Decimal.{is_digit, stoi, stoul}

pub record ScopeValidator : Type 0 where
  pub accepted_targets : List Text
  pub restricted_targets : List Text

-- What `params` has under a key: `none` in a list stands for an item that is no string.
pub data Param : Type 0 where
  missing : Param
  text : Text → Param
  array : List (Option Text) → Param
  other : Param

-- `std::transform` by `::tolower`.
abbrev pub lower : Text → Text
lower s = map to_lower s

-- The strings of an array of the configuration; a key that holds no array leaves the list empty.
pub strings : List (Option Text) → List Text
strings [] = []
strings (none ∷ items) = strings items
strings (some s ∷ items) = s ∷ strings items

abbrev pub strings_of : Param → List Text
strings_of (array items) = strings items
strings_of missing = []
strings_of (text s) = []
strings_of other = []

pub configure : (Text → Param) → ScopeValidator → ScopeValidator
configure config v = record {
  accepted_targets = strings_of (config (codes "accepted_targets"));
  restricted_targets = strings_of (config (codes "restricted_targets"));
}

-- The loop of `parse_ipv4`, with the room left in `parts`; `none` where it returns false.
pub parse_parts : ℕ → List Text → Option (List ℕ)
parse_parts room [] = some []
parse_parts zero (token ∷ tokens) = some []
parse_parts (suc room) (token ∷ tokens) =
    let rest = parse_parts room tokens in
    elim (stoul token) [
      | none ↦ none
      | some v ↦
          if ltb 255 v then none else elim rest [ none ↦ none | some parts ↦ some (v ∷ parts) ]
    ]

-- `x << k` on 32 bits.
abbrev pub shl32 : ℕ → ℕ → ℕ
shl32 x k = x * 2 ^ k % 2 ^ 32

-- The four parts as an address.
pub address_of : List ℕ → Option ℕ
address_of (a ∷ b ∷ c ∷ d ∷ []) =
    some (bit_or (bit_or (bit_or (shl32 a 24) (shl32 b 16)) (shl32 c 8)) d)
address_of parts = none

pub parse_ipv4 : Text → Option ℕ
parse_ipv4 ip = elim (parse_parts 4 (getline_tokens b'.' ip)) [
  | none ↦ none
  | some parts ↦ address_of parts
]

-- The loop of `is_ipv4`, with the dots seen.
pub count_dots : Text → ℕ → Option ℕ
count_dots [] dots = some dots
count_dots (c ∷ s) dots =
    if c == b'.' then count_dots s (suc dots) else (if is_digit c then count_dots s dots else none)

pub is_ipv4 : Text → Bool
is_ipv4 s = elim (count_dots s 0) [ none ↦ false | some dots ↦ dots == 3 ]

pub is_cidr : Text → Bool
is_cidr s = elim (find_byte b'/' s) [ none ↦ false | some slash ↦ is_ipv4 (take slash s) ]

-- The mask of a prefix length up to 32: `~0` shifted by what is left.
abbrev pub mask_of : ℕ → ℕ
mask_of prefix = if prefix == 0 then 0 else shl32 0xffff_ffff (32 - prefix)

-- The comparison of the two addresses under a mask.
pub same_network : Text → Text → ℕ → Bool
same_network ip network prefix = elim (parse_ipv4 ip) [
  | none ↦ false
  | some a ↦ elim (parse_ipv4 network) [
    | none ↦ false
    | some b ↦ bit_and a (mask_of prefix) == bit_and b (mask_of prefix)
  ]
]

pub matches_cidr : Text → Text → Bool
matches_cidr ip cidr = elim (find_byte b'/' cidr) [
  | none ↦ false
  | some slash ↦ elim (stoi (drop (suc slash) cidr)) [
    | none ↦ false
    | some (negsuc n) ↦ false
    | some (pos n) ↦ if ltb 32 n then false else same_network ip (take slash cidr) n
  ]
]

-- `pattern` starts with `*.`.
pub matches_wildcard : Text → Text → Bool
matches_wildcard target pattern =
    let suffix = drop 1 pattern in
    let bare = drop 2 pattern in
    if text_eq target bare
    then true
    else ltb (length suffix) (length target)
      && text_eq (drop (length target - length suffix) target) suffix

-- `size() > 2`, and the first two bytes are `*.`.
pub is_wildcard : Text → Bool
is_wildcard (a ∷ b ∷ c ∷ s) = a == b'*' && b == b'.'
is_wildcard s = false

pub matches_pattern : Text → Text → Bool
matches_pattern target pattern =
    let p = lower pattern in
    if text_eq target p
    then true
    else if is_wildcard p
    then matches_wildcard target p
    else is_cidr p && is_ipv4 target && matches_cidr target p

pub is_target_in_scope : ScopeValidator → Text → Bool
is_target_in_scope v target =
    if is_empty v.accepted_targets
    then false
    else if any_of (matches_pattern (lower target)) v.restricted_targets
    then false
    else any_of (matches_pattern (lower target)) v.accepted_targets

abbrev pub is_enabled : ScopeValidator → Bool
is_enabled v = not (is_empty v.accepted_targets)

-- `s` without what stands before the end of the first `mark`, or from the mark on.
pub after_text : Text → Text → Text
after_text mark s = elim (find_text mark s) [ none ↦ s | some i ↦ drop (i + length mark) s ]

pub before_byte : ℕ → Text → Text
before_byte mark s = elim (find_byte mark s) [ none ↦ s | some i ↦ take i s ]

-- The steps in the source's order: scheme, user, port, path, query.
pub extract_hostname : Text → Text
extract_hostname url =
    before_byte b'?'
      (before_byte b'/' (before_byte b':' (after_text (codes "@") (after_text (codes "://") url))))

abbrev pub has_text : Text → Text → Bool
has_text p s = elim (find_text p s) [ none ↦ false | some i ↦ true ]

abbrev pub nonempty : Text → List Text
nonempty s = if is_empty s then [] else s ∷ []

-- The targets of one value, alone or as an item of an array.
pub value_targets : Text → List Text
value_targets s =
    if has_text (codes "://") s || has_text (codes "/") s
    then nonempty (extract_hostname s)
    else nonempty s

pub item_targets : Text → List Text
item_targets s = if has_text (codes "://") s then nonempty (extract_hostname s) else nonempty s

pub items_targets : List (Option Text) → List Text
items_targets [] = []
items_targets (none ∷ items) = items_targets items
items_targets (some s ∷ items) = item_targets s ++ items_targets items

pub param_targets : Param → List Text
param_targets missing = []
param_targets (text s) = value_targets s
param_targets (array items) = items_targets items
param_targets other = []

abbrev pub target_param_keys : List Text
target_param_keys =
    codes "target" ∷ codes "domain" ∷ codes "host" ∷ codes "url" ∷ codes "hostname" ∷ []

pub targets_under : (Text → Param) → List Text → List Text
targets_under params [] = []
targets_under params (key ∷ keys) = param_targets (params key) ++ targets_under params keys

-- `none` stands for parameters that are no object.
pub extract_targets : Option (Text → Param) → List Text
extract_targets none = []
extract_targets (some params) = targets_under params target_param_keys

-- `FormatAcceptedTargets` and `FormatRestrictedTargets`.
pub format_targets : List Text → Text
format_targets [] = []
format_targets (t ∷ []) = t
format_targets (t ∷ u ∷ ts) = t ++ (codes ", " ++ format_targets (u ∷ ts))

pub scope_error : ScopeValidator → Text → Text → Text
scope_error v tool target =
    codes "Target '"
    ++ (target
        ++ (codes "' is out of scope for tool '"
            ++ (tool
                ++ (codes "'. Accepted: "
                    ++ (format_targets v.accepted_targets
                        ++ (if is_empty v.restricted_targets
                            then []
                            else codes " | Restricted: "
                              ++ format_targets v.restricted_targets))))))

-- The loop over the targets; the empty text is the code's for a valid call.
pub check_targets : ScopeValidator → Text → List Text → Text
check_targets v tool [] = []
check_targets v tool (target ∷ targets) =
    if is_target_in_scope v target then check_targets v tool targets else scope_error v tool target

pub validate_tool_call : ScopeValidator → Text → Option (Text → Param) → Text
validate_tool_call v tool params =
    if is_enabled v then check_targets v tool (extract_targets params) else []
