-- ===== src/Seed/Data.antt =====
-- seed.ts: what the script writes.
use course_project.Base.{
  ℕ, zero, suc, ◌+◌, ◌*◌, ◌%◌, ◌==◌, if◌then◌else◌, Option, none, some, List, [], ◌∷◌, map,
}
use course_project.Base.Text.{Text, codes}
use course_project.Db.Rows.{UserRole, OrderStatus}
use course_project.Seed.{UserSpec, CatalogRow, OrderSpec}

abbrev pub sellers : List UserSpec
sellers =
    (record { email = codes "seller-anna@example.com"; role = UserRole.seller })
    ∷ (record { email = codes "seller-bohdan@example.com"; role = UserRole.seller })
    ∷ []

abbrev pub buyers : List UserSpec
buyers =
    (record { email = codes "buyer-kateryna@example.com"; role = UserRole.buyer })
    ∷ (record { email = codes "buyer-dmytro@example.com"; role = UserRole.buyer })
    ∷ (record { email = codes "buyer-olena@example.com"; role = UserRole.buyer })
    ∷ []

abbrev pub catalog : List CatalogRow
catalog =
    (record {
      name = codes "Клавіатура механічна";
      description = codes "Клавіатура з українською розкладкою.";
      price = 260000;
      stock = 20;
      seller_email = codes "seller-anna@example.com";
    })
    ∷ (record {
      name = codes "Мишка бездротова";
      description = codes "Тиха мишка для офісу.";
      price = 125000;
      stock = 40;
      seller_email = codes "seller-anna@example.com";
    })
    ∷ (record {
      name = codes "Монітор 27 дюймів";
      description = codes "IPS-панель для роботи з кольором.";
      price = 890000;
      stock = 8;
      seller_email = codes "seller-bohdan@example.com";
    })
    ∷ (record {
      name = codes "Ноутбук офісний";
      description = codes "Легкий ноутбук для щоденної роботи.";
      price = 3200000;
      stock = 5;
      seller_email = codes "seller-bohdan@example.com";
    })
    ∷ (record {
      name = codes "Шкіряні кросівки";
      description = codes "Кросівки зі шкіри, модель для міста.";
      price = 450000;
      stock = 15;
      seller_email = codes "seller-anna@example.com";
    })
    ∷ (record {
      name = codes "Сумка текстильна";
      description = codes "Легка сумка на щодень.";
      price = 99000;
      stock = 30;
      seller_email = codes "seller-bohdan@example.com";
    })
    ∷ []

-- `xs[i]`
abbrev pub at {ℓ} : {A : Type ℓ} → List A → ℕ → Option A
at [] i = none
at (x ∷ xs) zero = some x
at (x ∷ xs) (suc i) = at xs i

abbrev pub buyer_email_at : ℕ → Text
buyer_email_at i = elim (at buyers (i % 3)) [ none ↦ [] | some row ↦ row.email ]

abbrev pub product_name_at : ℕ → Text
product_name_at i = elim (at catalog (i % 6)) [ none ↦ [] | some row ↦ row.name ]

-- `Date.UTC(2026, 0, 15, 12, 0, i)`
abbrev pub seed_time : ℕ → ℕ
seed_time i = 1768478400000 + 1000 * i

abbrev pub seed_spec : ℕ → OrderSpec
seed_spec i = record {
  buyer_email = buyer_email_at i;
  status = if i % 5 == 0 then OrderStatus.new else OrderStatus.paid;
  created_at = seed_time i;
  lines =
      (record { product_name = product_name_at i; quantity = i % 3 + 1 })
      ∷ (record { product_name = product_name_at (i + 2); quantity = 1 })
      ∷ [];
}

abbrev pub seed_orders : List OrderSpec
seed_orders = map seed_spec (0 ∷ 1 ∷ 2 ∷ 3 ∷ 4 ∷ 5 ∷ 6 ∷ 7 ∷ 8 ∷ 9 ∷ [])
