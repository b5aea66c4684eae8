-- ===== src/Assist/Orderly.antt =====
-- What holds of the tables of backend/src/fsm/assist/adapters/orm.py between two requests.
pub mod Calls
pub mod Triage
pub mod Turns
pub mod Uploads
use field_service_management.Base.{
  ℕ, ◌+◌, ◌≡◌, refl, sym, ◌≤◌, ◌<◌, Bool, true, false, not, ◌&&◌, Option, none, some, List, [], ◌∷◌,
  ◌++◌, arith, length, length-append, filter, filter-append, any, ◌==◌, if◌then◌else◌, Bool-cases,
  inl, inr,
}
use mathlib.Core.Path.{subst}
use field_service_management.Base.Rows.{find, find-key, put}
use field_service_management.Assist.Conversation.{is_active}
use field_service_management.Assist.Conversations.{row_id, is_active_of, other_active, saved_row}
use field_service_management.Assist.Photos.{max_photos_per_conversation}
use field_service_management.Assist.Store.{ConversationRow, PhotoRow, Desk}

-- How many rows pass a test.
abbrev pub count : {A : Type 0} → (A → Bool) → List A → ℕ
count p xs = length (filter p xs)

-- The conversations have their own ids, a customer has one active conversation at most, and a
-- conversation has its number of photos at most.
pub record IsOrderly (d : Desk) : Type 0 where
  pub distinct : (id : ℕ) → count (λ row. row.id == id) d.conversations ≤ 1
  pub one_active : (customer : ℕ) → count (is_active_of customer) d.conversations ≤ 1
  pub few_photos :
      (conversation : ℕ)
      → count (λ row. row.conversation_id == conversation) d.photos ≤ max_photos_per_conversation

module _ {A : Type 0} where
  pub count-append : (p : A → Bool) (xs ys : List A) → count p (xs ++ ys) ≡ count p xs + count p ys
  count-append p [] ys = omega arith
  count-append p (x ∷ xs) ys = ground (arith, count-append p xs ys)

  pub count-filter : (p q : A → Bool) (xs : List A) → count p (filter q xs) ≤ count p xs
  count-filter p q [] = omega arith
  count-filter p q (x ∷ xs) = ground (arith, count-filter p q xs)

  pub count-eq_zero : (p : A → Bool) (xs : List A) → any p xs ≡ false → count p xs ≡ 0
  count-eq_zero p [] h = refl
  count-eq_zero p (x ∷ xs) h = ground (arith, count-eq_zero p xs)

module _ (a x : ConversationRow) where
  -- Where the row that is overwritten passes the test if its successor does.
  count-put_le :
      (p : ConversationRow → Bool) (rows : List ConversationRow)
      → find row_id a.id rows ≡ some x
      → (p a ≡ true → p x ≡ true)
      → count p (put row_id a rows) ≤ count p rows
  count-put_le p [] h k = omega arith
  count-put_le p (row ∷ rows) h k = elim (Bool-cases (row.id == a.id)) [
    | inl here ↦ ground arith
    | inr there ↦ ground (arith, count-put_le p rows)
  ]

  count-others :
      (p : ConversationRow → Bool) (rows : List ConversationRow)
      → any (λ row. not (row.id == a.id) && p row) rows ≡ false
      → count p rows ≤ count (λ row. row.id == a.id) rows
  count-others p [] h = omega arith
  count-others p (row ∷ rows) h = ground (arith, count-others p rows)

  -- Where no row with another id passes it.
  count-put_others :
      (p : ConversationRow → Bool) (rows : List ConversationRow)
      → any (λ row. not (row.id == a.id) && p row) rows ≡ false
      → count p (put row_id a rows) ≤ count (λ row. row.id == a.id) rows
  count-put_others p [] h = omega arith
  count-put_others p (row ∷ rows) h = elim (Bool-cases (row.id == a.id)) [
    | inl here ↦ ground (arith, count-others p rows)
    | inr there ↦ ground (arith, count-put_others p rows)
  ]

  -- A row whose identity is kept, and which no other active row of its customer stands beside.
  pub put-one_active :
      (rows : List ConversationRow)
      → find row_id a.id rows ≡ some x
      → a.customer_id ≡ x.customer_id
      → (is_active a.status && other_active a.id a.customer_id rows) ≡ false
      → count (λ row. row.id == a.id) rows ≤ 1
      → ((customer : ℕ) → count (is_active_of customer) rows ≤ 1)
      → (customer : ℕ) → count (is_active_of customer) (put row_id a rows) ≤ 1
  put-one_active rows found same guard distinct one customer =
      elim (Bool-cases (is_active_of customer a)) [
        | inl active ↦
            let (mine, on) : (a.customer_id ≡ customer) × (is_active a.status ≡ true) =
              (ground arith, ground arith) in
            let none_else : other_active a.id customer rows ≡ false =
              subst (λ c. other_active a.id c rows ≡ false) mine (ground arith) in
            omega (arith, distinct, count-put_others (is_active_of customer) rows none_else)
        | inr idle ↦ omega (
          arith,
          one customer,
          count-put_le (is_active_of customer) rows found (λ e. absurd (cc)),
        )
      ]

  pub put-distinct :
      (rows : List ConversationRow)
      → find row_id a.id rows ≡ some x
      → ((id : ℕ) → count (λ row. row.id == id) rows ≤ 1)
      → (id : ℕ) → count (λ row. row.id == id) (put row_id a rows) ≤ 1
  put-distinct rows found one id =
      let key : x.id ≡ a.id = find-key row_id a.id rows x found in
      omega (arith, one id, count-put_le (λ row. row.id == id) rows found (λ e. rw key e))
