-- ===== src/Samples/Gates.antt =====
-- Runs of the theorems on gates and waivers.
use amnesic_pi.Prelude.{ℕ, ◌≡◌, refl, true, Option, none, List, [], ◌∷◌}
use amnesic_pi.Errors.{ok, err, policy_breach}
use amnesic_pi.Platform.{Platform, utc}
use amnesic_pi.Value.{Value}
use amnesic_pi.Gates.{GateResult, gate, find_gate, validate, to_dict, parse, waive}
use amnesic_pi.Gates.Results.{parse-to_dict, IsCertified, parse-IsCertified}
use amnesic_pi.Gates.Waivers.{waive-unwaivable}
use amnesic_pi.Samples.Hashing.{sample, sample-ReadsIso}

abbrev no_json : List ℕ → Option Value
no_json text = none

abbrev platform : Platform
platform = sample no_json

abbrev clean : GateResult
clean = record {
  gate = "POLICY_CLEAN";
  passed = true;
  evidence = "nft -c output" ∷ [];
  checked_by = "policy";
  checked_at = utc 40;
}

valid : validate clean ≡ ok tt
unfolding validate gate find_gate
valid = refl

parse-to_dict_example : parse platform 50 (to_dict platform clean) ≡ ok clean
parse-to_dict_example = parse-to_dict platform 50 clean (sample-ReadsIso no_json) valid

accepted : parse platform 50 (to_dict platform clean) ≡ ok clean
accepted = parse-to_dict platform 50 clean (sample-ReadsIso no_json) valid

parse-IsCertified_example : IsCertified (to_dict platform clean) clean
parse-IsCertified_example = parse-IsCertified platform 50 (to_dict platform clean) clean accepted

waive-unwaivable_example : waive platform 50 "FAIL_CLOSED_PASS" "ops" "late" ≡ err policy_breach
waive-unwaivable_example = waive-unwaivable platform 50 "FAIL_CLOSED_PASS" "ops" "late" refl
