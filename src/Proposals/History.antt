-- ===== src/Proposals/History.antt =====
-- Histories of the confirmation store in the database (internal/confirmations/postgres.go).
pub mod Single
pub mod Consented
pub mod Verified
use kontor.Prelude.{◌≡◌, Bool, true, false, List, [], ◌∷◌, String, Time, arith, any, ◌⊎◌, inl, inr}
use kontor.Tools.Types.{TrustedContext}
use kontor.Tools.Confirmations.{ConfirmationProposal, ConfirmationBinding, with_id}
use kontor.Proposals.{
  Database, MessageRow, ProposalCodec, propose, invalidate_latest, expire_overdue, reject_live,
  new_row, update_rows,
}
use kontor.Proposals.Authorize.{
  authorize, mark_consumed, can_authorize, confirm, can_consume, consume,
}

-- A call of the store, or a message that is stored.
pub data ProposalOp : Type 0 where
  propose_op : String → Time → ConfirmationBinding → ConfirmationProposal → Time → ProposalOp
  invalidate_op : String → String → String → Time → ProposalOp
  authorize_op : String → TrustedContext → Time → ProposalOp
  consume_op : String → ConfirmationBinding → Time → ProposalOp
  message_op : MessageRow → ProposalOp

module _ (codec : ProposalCodec) where
  unfoldable pub step : ProposalOp → Database → Database
  step (propose_op fresh stamp b p now) db = (propose codec fresh stamp b p now db).1
  step (invalidate_op tenant customer conversation now) db =
      invalidate_latest tenant customer conversation now db
  step (authorize_op id by now) db = (authorize id by now db).1
  step (consume_op id b now) db = (mark_consumed codec id b now db).1
  step (message_op m) db = record db { messages = m ∷ db.messages }

  unfoldable pub run : List ProposalOp → Database → Database
  unfolding step
  run [] db = db
  run (op ∷ ops) db = run ops (step op db)

-- The three things that `Propose` leaves in the database.
pub propose_cases :
    (codec : ProposalCodec) (fresh : String) (stamp : Time) (b : ConfirmationBinding)
    (p : ConfirmationProposal) (now : Time) (db : Database)
    → ((propose codec fresh stamp b p now db).1 ≡ db)
      ⊎ (((propose codec fresh stamp b p now db).1
            ≡ record db { proposals = expire_overdue b now db.proposals })
          ⊎ ((propose codec fresh stamp b p now db).1 ≡ record db {
            proposals =
                new_row codec b (with_id fresh p) stamp
                ∷ reject_live b (expire_overdue b now db.proposals);
          }))
unfolding propose
propose_cases codec fresh stamp b p now db = ground arith

pub authorize_cases :
    (id : String) (by : TrustedContext) (now : Time) (db : Database)
    → ((authorize id by now db).1 ≡ db)
      ⊎ ((authorize id by now db).1 ≡ record db {
        proposals =
            update_rows
              (can_authorize db.messages id by now)
              (confirm by.inbound_message_id now)
              db.proposals;
      })
unfolding authorize
authorize_cases id by now db = ground arith

pub consume_cases :
    (codec : ProposalCodec) (id : String) (b : ConfirmationBinding) (now : Time) (db : Database)
    → ((mark_consumed codec id b now db).1 ≡ db)
      ⊎ ((mark_consumed codec id b now db).1 ≡ record db {
        proposals = update_rows (can_consume codec id b now) (consume now) db.proposals;
      })
unfolding mark_consumed
consume_cases codec id b now db = ground arith
