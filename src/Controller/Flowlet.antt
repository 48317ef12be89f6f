-- ===== src/Controller/Flowlet.antt =====
-- controller/flowlet.go: the traffic that a chain serves. Ports and protocols are uint32.
use text.Mathlib.Text.{◌==◌ as str_eq}
use low_latency_faa_s.Prelude.{ℕ, String, Bool, ◌&&◌, ◌||◌, ◌==◌}

pub record Flowlet : Type 0 where
  pub src_ip : String
  pub dst_ip : String
  pub src_port : ℕ
  pub dst_port : ℕ
  pub proto : ℕ

-- The five parameters of Match and UpdateFlow.
pub record Flow : Type 0 where
  pub src_ip : String
  pub dst_ip : String
  pub src_port : ℕ
  pub dst_port : ℕ
  pub proto : ℕ

-- An empty address and a zero port match anything; the protocol is not looked at.
unfoldable pub matches_flow : Flowlet → Flow → Bool
matches_flow f x =
    (str_eq f.src_ip "" || str_eq f.src_ip x.src_ip)
    && (str_eq f.dst_ip "" || str_eq f.dst_ip x.dst_ip)
    && (f.src_port == 0 || f.src_port == x.src_port)
    && (f.dst_port == 0 || f.dst_port == x.dst_port)
