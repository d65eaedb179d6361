-- ===== src/Chain/MultiServer/Tests.antt =====
-- Three servers, of which one is not reached.
use vericonomy_sdk.Base.{ℕ, ◌≡◌, refl, true, false, some, List, [], ◌∷◌, is_empty, ◌↔◌}
use vericonomy_sdk.Text.{Text, codes}
use vericonomy_sdk.Errors.{Result, ok, err, other}
use vericonomy_sdk.Params.{verium}
use vericonomy_sdk.Chain.MultiServer.{Servers, heights_of, tips_of, verify_tip_consistency}
use vericonomy_sdk.Chain.MultiServer.Agree.{AreWithin, verify_tip_consistency-AreWithin}

abbrev connection : Text → Result ℕ
connection [] = err (other (codes "no route"))
connection (n ∷ name) = ok n

-- A server is named by the height of its tip.
abbrev toy_servers : Servers
toy_servers = record {
  Endpoint = Text;
  Connection = ℕ;
  parse = ok;
  display = λ endpoint. endpoint;
  connect = connection;
  tip_height = some;
}

abbrev uris : List Text
uris = (100 ∷ []) ∷ [] ∷ (103 ∷ []) ∷ []

agree : (verify_tip_consistency toy_servers verium uris 3).consistent ≡ true
unfolding verify_tip_consistency
agree = refl

disagree : (verify_tip_consistency toy_servers verium uris 2).consistent ≡ false
unfolding verify_tip_consistency
disagree = refl

verify_tip_consistency-AreWithin_example :
    ((verify_tip_consistency toy_servers verium uris 3).consistent ≡ true) ↔ (
      (is_empty (heights_of (tips_of toy_servers verium uris)) ≡ false)
      × AreWithin 3 (heights_of (tips_of toy_servers verium uris)))
verify_tip_consistency-AreWithin_example =
    verify_tip_consistency-AreWithin toy_servers verium uris 3
