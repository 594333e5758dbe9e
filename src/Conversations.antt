-- ===== src/Conversations.antt =====
-- internal/conversations/store.go: the token counts of a conversation, SQL statement by statement.
-- (tenant_id, id) is the primary key of the table, so a statement meets at most one row.
pub mod Budget
pub mod Rows
mod Tests
use kontor.Prelude.{
  ℕ, ◌+◌, ◌-◌, Bool, true, false, not, ◌&&◌, ◌||◌, Option, none, some, List, [], ◌∷◌, String,
  str_eq, leb, ltb, if◌then◌else◌, ℤ, pos, pos_part, leb_ℤ, ltb_ℤ,
}

pub record ConversationRow : Type 0 where
  pub tenant_id : String
  pub id : String
  pub token_budget : ℕ
  pub tokens_used : ℕ
  pub tokens_reserved : ℕ

pub data StoreError : Type 0 where
  budget_exceeded reservation_not_positive invalid_settlement not_found : StoreError

unfoldable pub has_key : String → String → ConversationRow → Bool
has_key tenant id r = str_eq r.tenant_id tenant && str_eq r.id id

unfoldable pub find_row : String → String → List ConversationRow → Option ConversationRow
unfolding has_key
find_row tenant id [] = none
find_row tenant id (r ∷ rs) = if has_key tenant id r then some r else find_row tenant id rs

-- `UPDATE conversations SET … WHERE tenant_id=$1 AND id=$2 AND …`: whether a row was affected, and
-- the rows.
unfoldable pub update_row :
    String
    → String
    → (ConversationRow → Bool)
    → (ConversationRow → ConversationRow)
    → List ConversationRow
    → Bool × List ConversationRow
unfolding has_key
update_row tenant id p f [] = (false, [])
update_row tenant id p f (r ∷ rs) =
    let (affected, rest) = update_row tenant id p f rs in
    if has_key tenant id r
    then (if p r then (true, f r ∷ rs) else (false, r ∷ rs))
    else (affected, r ∷ rest)

-- `RowsAffected() == 0` is the error.
abbrev pub or_error :
    StoreError → Bool × List ConversationRow → Option StoreError × List ConversationRow
or_error e (affected, rows) = (if affected then none else some e, rows)

unfoldable pub has_room : ℕ → ConversationRow → Bool
has_room n r = leb (r.tokens_used + r.tokens_reserved + n) r.token_budget

unfoldable pub hold : ℕ → ConversationRow → ConversationRow
hold n r = record r { tokens_reserved = r.tokens_reserved + n }

unfoldable pub reserve_tokens :
    String → String → ℤ → List ConversationRow → Option StoreError × List ConversationRow
unfolding update_row has_room hold
reserve_tokens tenant id amount rows =
    if ltb_ℤ amount (pos 1)
    then (some reservation_not_positive, rows)
    else or_error budget_exceeded
        (update_row tenant id (has_room (pos_part amount)) (hold (pos_part amount)) rows)

unfoldable pub can_settle : ℕ → ℕ → ConversationRow → Bool
can_settle reserved actual r =
    leb reserved r.tokens_reserved && leb (r.tokens_used + actual) r.token_budget

unfoldable pub spend : ℕ → ℕ → ConversationRow → ConversationRow
spend reserved actual r = record r {
  tokens_reserved = r.tokens_reserved - reserved;
  tokens_used = r.tokens_used + actual;
}

unfoldable pub settle_tokens :
    String → String → ℤ → ℤ → List ConversationRow → Option StoreError × List ConversationRow
unfolding update_row can_settle spend
settle_tokens tenant id reserved actual rows =
    if ltb_ℤ reserved (pos 1) || (ltb_ℤ actual (pos 0) || ltb_ℤ reserved actual)
    then (some invalid_settlement, rows)
    else or_error budget_exceeded (
        update_row tenant id (can_settle (pos_part reserved) (pos_part actual))
          (spend (pos_part reserved) (pos_part actual)) rows)

unfoldable pub is_held : ℕ → ConversationRow → Bool
is_held reserved r = leb reserved r.tokens_reserved

unfoldable pub release : ℕ → ConversationRow → ConversationRow
release reserved r = record r { tokens_reserved = r.tokens_reserved - reserved }

unfoldable pub release_tokens :
    String → String → ℤ → List ConversationRow → Option StoreError × List ConversationRow
unfolding update_row is_held release
release_tokens tenant id reserved rows =
    if ltb_ℤ reserved (pos 1)
    then (none, rows)
    else or_error not_found
        (update_row tenant id (is_held (pos_part reserved)) (release (pos_part reserved)) rows)
