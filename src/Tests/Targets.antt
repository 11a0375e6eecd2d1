-- ===== src/Tests/Targets.antt =====
-- The target policy.
use encryption_gateway.Prelude.{codes, [], ◌∷◌, some, true, false, ◌≡◌, ◌↔◌, ok}
use encryption_gateway.TargetPolicy.{Url, Rule, has_encoded_slash, assert_allowed}
use encryption_gateway.TargetPolicy.Allowed.{Any, Matches, assert_allowed_iff}
use encryption_gateway.Tests.Toys.{same}

abbrev admin_rule : Rule
admin_rule = record {
  method = codes "*";
  host = codes "api.example.com";
  path = codes "/admin";
  is_prefix = true;
  source = codes "api.example.com/admin*";
}

abbrev a_url : Url
a_url = record {
  protocol = codes "https:";
  host = codes "api.example.com";
  pathname = codes "/admin/users";
  text = codes "https://api.example.com/admin/users";
}

assert_allowed_iff_example :
    (assert_allowed same same (λ t. some t) (admin_rule ∷ []) (codes "GET") a_url ≡ ok tt) ↔ (
      (has_encoded_slash (codes "/admin/users") ≡ false)
      × Any
          (Matches (codes "GET") (codes "api.example.com") (codes "/admin/users"))
          (admin_rule ∷ []))
assert_allowed_iff_example =
    assert_allowed_iff same same (λ t. some t) (admin_rule ∷ []) (codes "GET") a_url
