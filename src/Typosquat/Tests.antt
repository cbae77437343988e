-- ===== src/Typosquat/Tests.antt =====
-- Package names, with a distance that counts equal names 0 and others by their lengths.
use Prim.Native.String.{len}
use runt.Prelude.{
  ℕ, suc, ◌+◌, ◌-◌, String, none, ◌≡◌, refl, arith, ◌==◌, string_eq, if◌then◌else◌, contains,
}
use runt.Typosquat.{Names, check_typosquat, extract_package_name, normalize_name, is_popular}
use runt.Typosquat.Nearest.{check_typosquat-Verdict, Verdict}

abbrev distance_test : String → String → ℕ
distance_test a b = if a == b then 0 else suc ((len a - len b) + (len b - len a))

pub distance_test_zero : (a b : String) → distance_test a b ≡ 0 → a ≡ b
distance_test_zero a b h = ground (arith, h, string_eq.same_iff a b)

abbrev names_test : Names
names_test = record {
  levenshtein = distance_test;
  levenshtein_zero = distance_test_zero;
  to_lowercase = λ s. s;
  trim = λ s. s;
}

extracted : extract_package_name names_test "numppy[extra]>=2" ≡ "numppy"
unfolding extract_package_name contains
extracted = refl

check_typosquat-Verdict_example :
    Verdict names_test "numppy>=2" (check_typosquat names_test "numppy>=2")
check_typosquat-Verdict_example = check_typosquat-Verdict names_test "numppy>=2"

popular_name : check_typosquat names_test "scikit_learn==1.0" ≡ none
unfolding check_typosquat extract_package_name normalize_name is_popular contains
popular_name = refl
