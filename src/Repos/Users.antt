-- ===== src/Repos/Users.antt =====
-- repos/users.repo.ts: users by their unique email.
use course_project.Base.{
  ℕ, suc, ◌≡◌, ◌≢◌, ◌≤◌, refl, sym, ap, subst, ◌∙◌, leb, Bool, true, false, Option, none, some,
  List, [], ◌∷◌, ◌++◌, Result, ok, err, find, update, if◌then◌else◌, find-append_none, Bool-cases,
  inl, inr, arith,
}
use course_project.Base.Text.{Text, text_eq, text_eq_iff, text_eq_refl}
use course_project.Db.Rows.{int4_max, UserRole, User}

pub record UserInput : Type 0 where
  pub email : Text
  pub role : UserRole
  pub balance_cents : Option ℕ

-- The table, and the next value of its identity column.
pub record UserTable : Type 0 where
  pub users : List User
  pub next_id : ℕ

pub data UserError : Type 0 where
  email_taken balance_out_of_range : UserError

-- `input.balanceCents ?? 0`
abbrev pub balance_of : UserInput → ℕ
balance_of input = elim input.balance_cents [ none ↦ 0 | some n ↦ n ]

abbrev pub has_email : Text → User → Bool
has_email email u = text_eq u.email email

-- `findByEmail`
unfoldable pub find_by_email : Text → UserTable → Option User
find_by_email email t = find (has_email email) t.users

abbrev new_user : UserInput → UserTable → User
new_user input t = record {
  id = t.next_id;
  email = input.email;
  role = input.role;
  balance_cents = balance_of input;
}

abbrev inserted : UserInput → UserTable → UserTable
inserted input t = record { users = t.users ++ new_user input t ∷ []; next_id = suc t.next_id }

abbrev insert_or_fail : UserInput → UserTable → Option User → Result UserError User × UserTable
insert_or_fail input t none = (ok (new_user input t), inserted input t)
insert_or_fail input t (some taken) = (err email_taken, record t { next_id = suc t.next_id })

-- `create`: a row that is refused has taken its id.
unfoldable pub create_user : UserInput → UserTable → Result UserError User × UserTable
unfolding find_by_email
create_user input t =
    if leb (balance_of input) int4_max
    then insert_or_fail input t (find_by_email input.email t)
    else (err balance_out_of_range, t)

abbrev insert_or_update : UserInput → UserTable → Option User → Result UserError User × UserTable
insert_or_update input t none = (ok (new_user input t), inserted input t)
insert_or_update input t (some old) = (
  ok (record old { role = input.role }),
  record {
    users = update (has_email input.email) (λ (u : User). record u { role = input.role }) t.users;
    next_id = suc t.next_id;
  },
)

-- `upsertByEmail`: `ON CONFLICT (email) DO UPDATE SET role = EXCLUDED.role`
unfoldable pub upsert_by_email : UserInput → UserTable → Result UserError User × UserTable
unfolding find_by_email
upsert_by_email input t =
    if leb (balance_of input) int4_max
    then insert_or_update input t (find_by_email input.email t)
    else (err balance_out_of_range, t)

find-update :
    (email : Text) (role : UserRole) (old : User) (users : List User)
    → find (has_email email) users ≡ some old
    → find
        (has_email email)
        (update (has_email email) (λ (u : User). record u { role = role }) users)
      ≡ some (record old { role = role })
find-update email role old [] h = absurd (ground (arith, h))
find-update email role old (u ∷ users) h = elim (Bool-cases (has_email email u)) [
  | inl e ↦
      let same : u ≡ old = ground (arith, h, e) in
      rw (e, e) (ap (λ (o : User). some (record o { role = role })) same)
  | inr e ↦ rw (e, e) (find-update email role old users (ground (arith, h, e)))
]

has_email-other :
    (email other : Text) (u : User)
    → other ≢ email
    → has_email email u ≡ true
    → has_email other u ≡ false
has_email-other email other u ne h = elim (Bool-cases (has_email other u)) [
  | inl both ↦
      absurd (ne (sym ((text_eq_iff u.email other).0 both) ∙ (text_eq_iff u.email email).0 h))
  | inr e ↦ e
]

find-update_other :
    (email other : Text) (role : UserRole) (users : List User)
    → other ≢ email
    → find
        (has_email other)
        (update (has_email email) (λ (u : User). record u { role = role }) users)
      ≡ find (has_email other) users
find-update_other email other role [] ne = refl
find-update_other email other role (u ∷ users) ne = elim (Bool-cases (has_email email u)) [
  | inl e ↦ rw (e, has_email-other email other u ne e) (find-update_other email other role users ne)
  | inr e ↦ rw (e, find-update_other email other role users ne) refl
]

find-append_other :
    (other : Text) (u : User) (users : List User)
    → has_email other u ≡ false
    → find (has_email other) (users ++ u ∷ []) ≡ find (has_email other) users
find-append_other other u [] e = ground (arith, e)
find-append_other other u (v ∷ users) e = ground (arith, find-append_other other u users e)

-- What the result of an upsert promises, seen through `findByEmail`.
abbrev pub IsUpserted : UserInput → Text → UserTable → Result UserError User × UserTable → Type 0
IsUpserted input other t r =
    (u : User) × (r.0 ≡ ok u)
    × (find_by_email input.email r.1 ≡ some u)
    × (u.role ≡ input.role)
    × (find_by_email other r.1 ≡ find_by_email other t)

insert_or_update-IsUpserted :
    (input : UserInput) (other : Text) (t : UserTable) (found : Option User)
    → find_by_email input.email t ≡ found
    → other ≢ input.email
    → IsUpserted input other t (insert_or_update input t found)
unfolding find_by_email
insert_or_update-IsUpserted input other t none h ne = (
  new_user input t,
  refl,
  find-append_none (has_email input.email) t.users (new_user input t ∷ []) h
      ∙ ground (arith, text_eq_refl input.email),
  refl,
  find-append_other other (new_user input t) t.users
      (has_email-other input.email other (new_user input t) ne (text_eq_refl input.email)),
)
insert_or_update-IsUpserted input other t (some old) h ne = (
  record old { role = input.role },
  refl,
  find-update input.email input.role old t.users h,
  refl,
  find-update_other input.email other input.role t.users ne,
)

-- If the balance is an integer of the database, an upsert returns a user with the role of the input,
-- whom `findByEmail` then finds; and a user with another email is found as before.
pub upsert_by_email-find :
    (input : UserInput) (other : Text) (t : UserTable)
    → balance_of input ≤ int4_max
    → other ≢ input.email
    → IsUpserted input other t (upsert_by_email input t)
unfolding upsert_by_email
upsert_by_email-find input other t fits ne =
    let found = insert_or_update input t (find_by_email input.email t) in
    let e : found ≡ upsert_by_email input t = ground (arith, fits) in
    subst (IsUpserted input other t) e
      (insert_or_update-IsUpserted input other t (find_by_email input.email t) refl ne)
