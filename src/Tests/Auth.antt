-- ===== src/Tests/Auth.antt =====
-- Scopes of concrete labels and users.
use stor.Base.{◌≡◌, refl, Bytes, codes, List, [], ◌∷◌, some, Result, ok, err}
use stor.Auth.{
  Error, method_read, method_write, method_admin, wrong_scopes, invalid_label, is_valid_label,
  admin_scope, expected_scopes, validate_jwt,
}
use stor.Auth.Scopes.{read_scope-admin_scope}

-- A member of the organisation that may read first_0stor_gig.
abbrev reader : Bytes → Result Error (List Bytes)
reader jwt = ok (codes "user:memberof:first.0stor.gig.read" ∷ [])

may_read : validate_jwt reader (some []) method_read (codes "first_0stor_gig") ≡ ok tt
unfolding validate_jwt expected_scopes is_valid_label admin_scope
may_read = refl

may_not_write :
    validate_jwt reader (some []) method_write (codes "first_0stor_gig") ≡ err wrong_scopes
unfolding validate_jwt expected_scopes is_valid_label admin_scope
may_not_write = refl

may_administrate : validate_jwt reader (some []) method_admin (codes "first_0stor_gig.read") ≡ ok tt
unfolding validate_jwt expected_scopes is_valid_label admin_scope
may_administrate = refl

two_marks :
    validate_jwt reader (some []) method_read (codes "a_0stor_b_0stor_c") ≡ err invalid_label
unfolding validate_jwt expected_scopes is_valid_label admin_scope
two_marks = refl

read_scope-admin_scope_example :
    (scope : Bytes) × (expected_scopes method_read (codes "first_0stor_gig")
      ≡ ok (scope ∷ admin_scope (codes "first_0stor_gig") ∷ []))
    × (expected_scopes method_admin (codes "first_0stor_gig.read") ≡ ok (scope ∷ []))
unfolding is_valid_label
read_scope-admin_scope_example = read_scope-admin_scope (codes "first_0stor_gig") refl refl
