-- ===== src/Kubectl/Query/Status.antt =====
-- kubectl/query.go: which pod decides the status that GetPodStatusByName gives.
use low_latency_faa_s.Prelude.{
  ◌≡◌, refl, ap, inl, inr, String, List, [], ◌∷◌, ◌++◌, Option, none, some, arith, if◌then◌else◌,
  Option-cases,
}
use low_latency_faa_s.Kubectl.Query.{Pod, next_status, status_of, get_pod_status_by_name}

-- What the pod says by itself: whether it is being deleted, and else what its first container does. A pod
-- with no containers, or the first of which waits, says nothing.
pub says : Pod → Option String
says p = if p.deleting then some "Terminating" else elim p.containers [
  | [] ↦ none
  | c ∷ cs ↦ if c.running then some "Running" else if c.terminated then some "Terminating" else none
]

abbrev pub AreSilent : List Pod → Type 0
AreSilent [] = Unit {0}
AreSilent (p ∷ ps) = (says p ≡ none) × AreSilent ps

-- The last pod that says something says `s`.
pub data Said (pods : List Pod) : String → Type 0 where
  last :
      (before : List Pod) (p : Pod) (after : List Pod) (s : String)
      → pods ≡ before ++ p ∷ after
      → says p ≡ some s
      → AreSilent after
      → Said pods s

pub data Status (pods : List Pod) : String → Type 0 where
  silent : AreSilent pods → Status pods "NotExist"
  said : {s : String} → Said pods s → Status pods s

next_status-says :
    (status : String) (p : Pod)
    → next_status status p ≡ elim (says p) [ none ↦ status | some s ↦ s ]
unfolding next_status says
next_status-says status p = ground arith

-- The loop from a status on: that status stands, or a pod has decided.
data Scanned (status : String) (pods : List Pod) : String → Type 0 where
  kept : AreSilent pods → Scanned status pods status
  decided : {s : String} → Said pods s → Scanned status pods s

later : (p : Pod) (ps : List Pod) (s : String) → Said ps s → Said (p ∷ ps) s
later p ps _ (last before q after s e h a) = last (p ∷ before) q after s (ap (λ l. p ∷ l) e) h a

scan_silent :
    (status : String) (p : Pod) (ps : List Pod) (s : String)
    → says p ≡ none
    → Scanned status ps s
    → Scanned status (p ∷ ps) s
scan_silent status p ps _ h (kept a) = kept (h, a)
scan_silent status p ps s h (decided d) = decided (later p ps s d)

scan_said :
    (status t : String) (p : Pod) (ps : List Pod) (s : String)
    → says p ≡ some t
    → Scanned t ps s
    → Scanned status (p ∷ ps) s
scan_said status t p ps _ h (kept a) = decided (last [] p ps t refl h a)
scan_said status t p ps s h (decided d) = decided (later p ps s d)

status_of-Scanned :
    (status : String) (pods : List Pod) → Scanned status pods (status_of status pods)
unfolding status_of
status_of-Scanned status [] = kept tt
status_of-Scanned status (p ∷ ps) = elim (Option-cases (says p)) [
  | inl nothing ↦
      let e : next_status status p ≡ status = rw (next_status-says status p, nothing) refl in
      rw e (scan_silent status p ps _ nothing (status_of-Scanned status ps))
  | inr (t, something) ↦
      let e : next_status status p ≡ t = rw (next_status-says status p, something) refl in
      rw e (scan_said status t p ps _ something (status_of-Scanned t ps))
]

found-Status : (pods : List Pod) (s : String) → Scanned "NotExist" pods s → Status pods s
found-Status pods _ (kept a) = silent a
found-Status pods s (decided d) = said d

-- GetPodStatusByName gives what the last pod that says something says: "Terminating" or "Running". It gives
-- "NotExist" where no pod says anything, as where there is none.
pub get_pod_status_by_name-Status : (pods : List Pod) → Status pods (get_pod_status_by_name pods)
get_pod_status_by_name-Status pods =
    found-Status pods (get_pod_status_by_name pods) (status_of-Scanned "NotExist" pods)
