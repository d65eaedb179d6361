-- ===== src/Chain/MultiServer.antt =====
-- vericonomy-chain/src/electrum/multi_server.rs: whether several servers agree on the tip. The
-- connections are a parameter.
pub mod Agree
mod Tests
use Prim.Native.Nat.{min, max}
use vericonomy_sdk.Base.{
  ℕ, ◌-◌, ◌%◌, ◌^◌, Bool, not, ◌&&◌, Option, none, some, List, [], ◌∷◌, ◌++◌, leb, is_empty,
}
use vericonomy_sdk.Text.{Text, codes}
use vericonomy_sdk.Errors.{Result, ok, err, to_string}
use vericonomy_sdk.Params.{CoinId, as_str}

pub record ServerTip : Type 0 where
  pub server : Text
  pub height : Option ℕ
  pub error : Option Text

pub record TipVerifyResult : Type 0 where
  pub consistent : Bool
  pub tips : List ServerTip
  pub max_drift_blocks : ℕ

-- Endpoints and connections. `tip_height` is the height in the answer of a server to
-- `blockchain.headers.subscribe`, if there is one.
pub record Servers : Type 1 where
  pub Endpoint : Type 0
  pub Connection : Type 0
  pub parse : Text → Result Endpoint
  pub display : Endpoint → Text
  pub connect : Endpoint → Result Connection
  pub tip_height : Connection → Option ℕ

abbrev pub failed_tip : Text → Text → ServerTip
failed_tip server message = record { server = server; height = none; error = some message }

-- The tip of a server that answers, or not, with a height, which is cast to `u32`.
unfoldable pub answered_tip : CoinId → Text → Option ℕ → ServerTip
answered_tip coin server none =
    failed_tip server (codes "no tip from " ++ (as_str coin ++ codes " electrum server"))
answered_tip coin server (some h) = record {
  server = server;
  height = some (h % 2 ^ 32);
  error = none;
}

abbrev pub consider : Option ℕ → List ℕ → List ℕ
consider none heights = heights
consider (some h) heights = h ∷ heights

-- `tips.iter().filter_map(|t| t.height)`
unfoldable pub heights_of : List ServerTip → List ℕ
heights_of [] = []
heights_of (t ∷ tips) = consider t.height (heights_of tips)

-- `iter().min()` and `iter().max()`
unfoldable pub smallest : ℕ → List ℕ → ℕ
smallest h [] = h
smallest h (x ∷ xs) = smallest (min h x) xs

unfoldable pub largest : ℕ → List ℕ → ℕ
largest h [] = h
largest h (x ∷ xs) = largest (max h x) xs

unfoldable pub drift_of : List ℕ → ℕ
unfolding smallest largest
drift_of [] = 2 ^ 32 - 1
drift_of (h ∷ hs) = largest h hs - smallest h hs

unfoldable pub summarise : ℕ → List ServerTip → TipVerifyResult
unfolding drift_of heights_of
summarise max_drift tips = record {
  consistent = not (is_empty (heights_of tips)) && leb (drift_of (heights_of tips)) max_drift;
  tips = tips;
  max_drift_blocks = drift_of (heights_of tips);
}

module _ (servers : Servers) (coin : CoinId) where
  -- The body of `for uri in server_uris`
  unfoldable pub tip_of : Text → ServerTip
  unfolding answered_tip to_string
  tip_of uri = elim (servers.parse uri) [
    | err e ↦ failed_tip uri (to_string e)
    | ok endpoint ↦ elim (servers.connect endpoint) [
      | err e ↦ failed_tip (servers.display endpoint) (to_string e)
      | ok conn ↦ answered_tip coin (servers.display endpoint) (servers.tip_height conn)
    ]
  ]

  unfoldable pub tips_of : List Text → List ServerTip
  unfolding tip_of
  tips_of [] = []
  tips_of (uri ∷ uris) = tip_of uri ∷ tips_of uris

  unfoldable pub verify_tip_consistency : List Text → ℕ → TipVerifyResult
  unfolding tips_of summarise
  verify_tip_consistency server_uris max_drift = summarise max_drift (tips_of server_uris)
