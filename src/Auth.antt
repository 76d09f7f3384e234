-- ===== src/Auth.antt =====
-- server/jwt (verifier.go, method.go): which scopes a request asks for, and whether a user has one of
-- them. The scopes of a token, with its signature, its expiry and the cache, are behind `get_scopes`,
-- an argument. Texts are byte slices.
pub mod Scopes
use stor.Base.{
  ℕ, zero, suc, ◌-◌, ◌+◌, Bytes, bytes_eq, has_prefix, codes, List, [], ◌∷◌, ◌++◌, Option, none,
  some, Bool, true, false, ◌==◌, leb, ◌&&◌, ◌||◌, not, if◌then◌else◌, length, drop, pred, Result,
  ok, err, panic, ◌>>=◌, ◌>>◌, fail_if,
}

-- Method
pub data Method : Type 0 where
  method_write method_read method_delete method_admin : Method

-- (Method).String
abbrev pub method_string : Method → Bytes
method_string method_write = codes "write"
method_string method_read = codes "read"
method_string method_delete = codes "delete"
method_string method_admin = codes "admin"

pub data Error : Type 0 where
  no_jwt_token wrong_scopes invalid_label : Error
  bad_token : ℕ → Error

-- strings.HasSuffix
abbrev pub has_suffix : Bytes → Bytes → Bool
has_suffix s suffix =
    leb (length suffix) (length s) && bytes_eq (drop (length s - length suffix) s) suffix

-- strings.Count of a text that is not empty, where the first `skip` bytes belong to the last find
abbrev pub count_from : Bytes → ℕ → Bytes → ℕ
count_from part skip [] = 0
count_from part zero (x ∷ xs) =
    let found = suc (count_from part (pred (length part)) xs) in
    let later = count_from part 0 xs in if has_prefix (x ∷ xs) part then found else later
count_from part (suc skip) (x ∷ xs) = count_from part skip xs

-- strings.Replace with the number 1
abbrev pub replace_first : Bytes → Bytes → Bytes → Bytes
replace_first part by [] = []
replace_first part by (x ∷ xs) =
    let later = x ∷ replace_first part by xs in
    if has_prefix (x ∷ xs) part then by ++ drop (length part) (x ∷ xs) else later

abbrev pub label_mark : Bytes
label_mark = codes "_0stor_"

-- validateNamespaceLabel
unfoldable pub is_valid_label : Bytes → Bool
is_valid_label label = count_from label_mark 0 label == 1 && not (has_suffix label label_mark)

-- `strings.Replace(label, "_0stor_", ".0stor.", 1)`
unfoldable pub admin_scope : Bytes → Bytes
admin_scope label = replace_first label_mark (codes ".0stor.") label

abbrev pub scopes_for : Method → Bytes → List Bytes
scopes_for method_admin scope = scope ∷ []
scopes_for method scope = (scope ++ (codes "." ++ method_string method)) ∷ scope ∷ []

-- expectedScopes
unfoldable pub expected_scopes : Method → Bytes → Result Error (List Bytes)
expected_scopes method label =
    fail_if (not (is_valid_label label)) invalid_label >> ok (scopes_for method (admin_scope label))

-- The inner loop of checkPermissions
abbrev pub is_expected : Bytes → List Bytes → Bool
is_expected scope [] = false
is_expected scope (expected ∷ rest) = bytes_eq scope expected || is_expected scope rest

-- checkPermissions
abbrev pub check_permissions : List Bytes → List Bytes → Bool
check_permissions expected [] = false
check_permissions expected (scope ∷ scopes) =
    is_expected (replace_first (codes "user:memberof:") [] scope) expected
    || check_permissions expected scopes

-- ValidateJWT, for the token that extractJWTToken finds in the metadata
unfoldable pub validate_jwt :
    (Bytes → Result Error (List Bytes)) → Option Bytes → Method → Bytes → Result Error (Unit {0})
validate_jwt get_scopes none method label = err no_jwt_token
validate_jwt get_scopes (some jwt) method label = get_scopes jwt >>= λ scopes.
    expected_scopes method label >>= λ expected.
    fail_if (not (check_permissions expected scopes)) wrong_scopes
