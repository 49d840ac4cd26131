-- ===== src/Seed/Funded.antt =====
-- seed.ts: the users.
use course_project.Base.{
  ℕ, ltb, ◌==◌, ◌≡◌, inl, inr, refl, ap, sym, ◌∙◌, false, if◌then◌else◌, Option, none, some, List,
  [], ◌∷◌, find, ok, arith, find-append_some, find-append_none, Bool-cases,
}
use course_project.Base.Text.{Text, text_eq_refl}
use course_project.Db.Rows.{User}
use course_project.Seed.{
  UserSpec, SeedUsers, seed_user, user_found, seeded_user, has_address, top_up, seed_balance,
}
use course_project.Seed.Loop.{Holds, IsSettling}

-- A user with this address has the id and enough money.
pub record IsFunded (row : UserSpec) (entry : Text × ℕ) (t : SeedUsers) : Type 0 where
  pub user : User
  pub name : entry.0 ≡ row.email
  pub found : find (has_address row.email) t.rows ≡ some user
  pub same_id : user.id ≡ entry.1
  pub funded : ltb user.balance_cents seed_balance ≡ false

-- The row that is found is the same one after a top-up, with at least as much money.
abbrev topped : ℕ → User → User
topped id u = if u.id == id then record u { balance_cents = seed_balance } else u

find-top_up :
    (e : Text) (id : ℕ) (users : List User) (u : User)
    → find (has_address e) users ≡ some u
    → find (has_address e) (top_up id users) ≡ some (topped id u)
find-top_up e id [] u h = ground (arith, h)
find-top_up e id (v ∷ users) u h = ground (arith, h, find-top_up e id users u)

user_found-IsFunded :
    (r : UserSpec) (o : Option User) (t : SeedUsers)
    → find (has_address r.email) t.rows ≡ o
    → Holds seed_user (IsFunded r) (user_found r o t)
user_found-IsFunded r none t h = record {
  user = seeded_user r t.next;
  name = refl;
  found = find-append_none (has_address r.email) t.rows _ h ∙ rw (text_eq_refl r.email) refl;
  same_id = refl;
  funded = refl;
}
user_found-IsFunded r (some u) t h = elim (Bool-cases (ltb u.balance_cents seed_balance)) [
  | inl low ↦ rw low (record {
    user = topped u.id u;
    name = refl;
    found = find-top_up r.email u.id t.rows u h;
    same_id = ground arith;
    funded = ground arith;
  })
  | inr enough ↦
      rw enough (record { user = u; name = refl; found = h; same_id = refl; funded = enough })
]

user_found-IsFunded_kept :
    (r q : UserSpec) (v : Text × ℕ) (o : Option User) (s : SeedUsers)
    → IsFunded r v s
    → Holds seed_user (λ _ t. IsFunded r v t) (user_found q o s)
user_found-IsFunded_kept r q v none s d = record {
  user = d.user;
  name = d.name;
  found = find-append_some (has_address r.email) s.rows _ d.user d.found;
  same_id = d.same_id;
  funded = d.funded;
}
user_found-IsFunded_kept r q v (some u) s d = elim (Bool-cases (ltb u.balance_cents seed_balance)) [
  | inl low ↦ rw low (record {
    user = topped u.id d.user;
    name = d.name;
    found = find-top_up r.email u.id s.rows d.user d.found;
    same_id = ground (arith, d.same_id);
    funded = ground (arith, d.funded);
  })
  | inr enough ↦ rw enough d
]

seed_user-IsFunded :
    (r : UserSpec) (v : Text × ℕ) (s : SeedUsers) → IsFunded r v s → seed_user r s ≡ (ok v, s)
unfolding seed_user
seed_user-IsFunded r v s d =
    rw (d.found, d.funded)
      (ap (λ e. (ok e, s)) (ap (λ n. (n, d.user.id)) (sym d.name) ∙ ap (λ i. (v.0, i)) d.same_id))

pub users-IsSettling : IsSettling seed_user IsFunded
unfolding seed_user
users-IsSettling = record {
  done = λ r s. user_found-IsFunded r (find (has_address r.email) s.rows) s refl;
  keep = λ r q v s d. user_found-IsFunded_kept r q v (find (has_address q.email) s.rows) s d;
  idle = seed_user-IsFunded;
}
