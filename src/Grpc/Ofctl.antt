-- ===== src/Grpc/Ofctl.antt =====
-- grpc/ofctl.go: the text of the messages to the OpenFlow controller, which a Redis client publishes.
use low_latency_faa_s.Prelude.{String, [], ◌∷◌}
use low_latency_faa_s.Prelude.Int.{ℤ, pos}
use low_latency_faa_s.Kubectl.Deploy.{itoa, join}
use low_latency_faa_s.Controller.Metron.{Message, update_sgroup, update_and_split_sgroup}

-- UpdateSGroup and UpdateAndSpiltSGroup.
unfoldable pub text_of : Message → String
unfolding itoa join
text_of (update_sgroup id switch_port dmac) =
    join "," ("sgup" ∷ itoa id ∷ itoa (pos switch_port) ∷ dmac ∷ [])
text_of (update_and_split_sgroup first id switch_port dmac) =
    join "," ("sgupsplit" ∷ itoa first ∷ itoa id ∷ itoa (pos switch_port) ∷ dmac ∷ [])

-- SpiltSGroup and MergeSGroup, which nothing calls.
unfoldable pub split_text : ℤ → ℤ → String
split_text first second = join "," ("split" ∷ itoa first ∷ itoa second ∷ [])

unfoldable pub merge_text : ℤ → ℤ → String
merge_text first second = join "," ("merge" ∷ itoa first ∷ itoa second ∷ [])
