-- ===== src/Controller/Requests/Users.antt =====
-- controller/controller.go: the DAGs of different users do not meet.
use low_latency_faa_s.Prelude.{
  ℕ, ◌<◌, ◌≡◌, refl, inl, inr, String, true, false, List, [], ◌∷◌, ◌++◌, none, some, length,
  length-append, if◌then◌else◌, arith, Option-cases,
}
use text.Mathlib.Text.{◌==◌ as str_eq}
use text.Mathlib.TextEquality.{eq_iff}
use low_latency_faa_s.Controller.Dag.{Dag, new_dag}
use low_latency_faa_s.Controller.State.{World, put_dag}
use low_latency_faa_s.Controller.Requests.{named, dag_of, add_to_user}

-- Every DAG of the map lies below its length, and no two users have the same one.
pub record IsSeparate (users : List (String × ℕ)) : Type 0 where
  pub below : (u : String) (d : ℕ) → named users u ≡ some d → d < length users
  pub apart :
      (u v : String) (d : ℕ) → named users u ≡ some d → named users v ≡ some d → str_eq u v ≡ true

named-snoc :
    (users : List (String × ℕ)) (u v : String) (d : ℕ)
    → named (users ++ (u, d) ∷ []) v
      ≡ elim (named users v) [ none ↦ if str_eq u v then some d else none | some e ↦ some e ]
unfolding named
named-snoc [] u v d = refl
named-snoc ((n, e) ∷ users) u v d = ground (arith, named-snoc users u v d)

-- The users after a request of `user` for its DAG, and the user's DAG in the store.
data Owned (users : List (String × ℕ)) (user : String) (w : World)
    : ℕ → List (String × ℕ) → World → Type 0 where
  old : (d : ℕ) → named users user ≡ some d → Owned users user w d users w
  fresh :
      named users user ≡ none
      → Owned users user w
          (length users)
          (users ++ (user, length users) ∷ [])
          (put_dag (length users) new_dag w)

dag_of-Owned :
    (users : List (String × ℕ)) (user : String) (w : World)
    → Owned users user w (dag_of users user w).0 (dag_of users user w).1 (dag_of users user w).2
unfolding dag_of
dag_of-Owned users user w = elim (Option-cases (named users user)) [
  | inl e ↦ rw (e, dag_of) (fresh e)
  | inr (d, e) ↦ rw (e, dag_of) (old d e)
]

snoc-IsSeparate :
    (users : List (String × ℕ)) (user : String)
    → named users user ≡ none
    → IsSeparate users
    → IsSeparate (users ++ (user, length users) ∷ [])
snoc-IsSeparate users user missing v = record {
  below = λ u d h. ground (
    arith,
    named-snoc users user u (length users),
    h,
    v.below u d,
    length-append users ((user, length users) ∷ []),
  );
  apart = λ x y d h k. ground (
    arith,
    named-snoc users user x (length users),
    named-snoc users user y (length users),
    h,
    k,
    v.apart x y d,
    v.below x d,
    v.below y d,
    eq_iff user x,
    eq_iff user y,
    eq_iff x y,
  );
}

-- What the request of a user that adds an NF gives: the user's DAG, which is a new one if there was
-- none, with the NF; and for every other user the same DAG, with nothing changed in it.
pub record Added (add : Dag → ℕ × Dag) (users users₁ : List (String × ℕ)) (user : String)
    (w w₁ : World) (id : ℕ) : Type 0 where
  pub separate : IsSeparate users₁
  pub address : ℕ
  pub mine : named users₁ user ≡ some address
  pub before : Dag
  pub known : (d : ℕ) → named users user ≡ some d → before ≡ w.dags d
  pub unknown : named users user ≡ none → before ≡ new_dag
  pub added : (id, w₁.dags address) ≡ add before
  pub others : (v : String) → str_eq user v ≡ false → named users₁ v ≡ named users v
  pub untouched :
      (v : String) (d : ℕ) → str_eq user v ≡ false → named users v ≡ some d → w₁.dags d ≡ w.dags d

Owned-Added :
    (add : Dag → ℕ × Dag) (users users₁ : List (String × ℕ)) (user : String) (w w₁ : World) (d : ℕ)
    → IsSeparate users
    → Owned users user w d users₁ w₁
    → Added add users users₁ user w (put_dag d (add (w₁.dags d)).1 w₁) (add (w₁.dags d)).0
Owned-Added add users _ user w _ d v (old _ e) = record {
  separate = v;
  address = d;
  mine = e;
  before = w.dags d;
  known = λ x h. ground (arith, h, e);
  unknown = λ h. absurd (ground (arith, h, e));
  added = ground arith;
  others = λ u h. refl;
  untouched = λ u x h k. ground (arith, h, k, e, v.apart user u d, v.apart user u x);
}
Owned-Added add users _ user w _ _ v (fresh e) = record {
  separate = snoc-IsSeparate users user e v;
  address = length users;
  mine = ground (arith, named-snoc users user user (length users), e, eq_iff user user);
  before = new_dag;
  known = λ x h. absurd (ground (arith, h, e));
  unknown = λ h. refl;
  added = ground arith;
  others = λ u h. ground (arith, named-snoc users user u (length users), h);
  untouched = λ u x h k. ground (arith, h, k, v.below u x);
}

-- Among users with DAGs of their own, a request that adds an NF touches only the DAG of its user.
pub add_to_user-Added :
    (add : Dag → ℕ × Dag) (users : List (String × ℕ)) (user : String) (w : World)
    → IsSeparate users
    → Added add users
        (add_to_user add users user w).1
        user
        w
        (add_to_user add users user w).2
        (add_to_user add users user w).0
unfolding add_to_user
add_to_user-Added add users user w v =
    Owned-Added add users _ user w _ _ v (dag_of-Owned users user w)
