-- ===== src/Tests/RaceTests.antt =====
-- The race on a shop that does not know its product yet.
use course_project.Base.{ℕ, zero, suc, ◌≡◌, refl, true, List, [], ◌∷◌, ok, err, arith}
use course_project.Base.Text.{text_eq}
use course_project.Checkout.Steps.{Clock}
use course_project.Db.Rows.{Db, User, UserRole}
use course_project.Demo.Race.{race_seller_email, race_ok, not_found, demo_race}
use course_project.Demo.Race.Main.{all_sold, demo_race-sold}
use course_project.Tests.Fixtures.{host, clock, shop, kateryna}

abbrev copies : ℕ → Clock → List Clock
copies zero c = []
copies (suc n) c = c ∷ copies n c

abbrev anna : User
anna = record { id = 1; email = race_seller_email; role = UserRole.seller; balance_cents = 0 }

abbrev race_shop : Db
race_shop = record shop { users = anna ∷ kateryna ∷ [] }

no_buyer : demo_race host 9 (copies 50 clock) (record shop { users = anna ∷ [] }) ≡ err not_found
unfolding demo_race text_eq
no_buyer = refl

demo_race-sold_example :
    (demo_race host 9 (copies 50 clock) race_shop ≡ ok all_sold) × (race_ok all_sold ≡ true)
unfolding text_eq
demo_race-sold_example =
    demo_race-sold host (copies 50 clock) 9 race_shop refl refl tt
      (refl, ((λ h. ground (arith, h)), tt))
