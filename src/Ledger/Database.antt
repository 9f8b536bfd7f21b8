-- ===== src/Ledger/Database.antt =====
-- The database behind SQLAlchemy, which is not part of the repository: four tables, each with the
-- reads and writes that the ledger makes, and a test that says whether a commit goes through (a
-- violated constraint or a serialization failure makes `commit` raise). The laws are what SQL
-- documents of a table with a primary key.
pub mod Memory
use payops_intelligence.Prelude.{
  ℕ, ◌≡◌, Bool, true, ◌&&◌, ◌||◌, Option, none, some, List, [], ◌∷◌, String, str_eq, if◌then◌else◌,
}
use payops_intelligence.Prelude.Lists.{any, take}
use payops_intelligence.Ledger.Rows.{LedgerAccount, LedgerTransfer, LedgerEntry, LedgerAuditEvent}

pub record Tables : Type 1 where
  pub Accounts : Type 0
  pub Transfers : Type 0
  pub Entries : Type 0
  pub Audits : Type 0
  -- `session.get(LedgerAccount, id)`
  pub account : Accounts → String → Option LedgerAccount
  -- `select(LedgerAccount).order_by(account_id)`
  pub accounts : Accounts → List LedgerAccount
  -- The INSERT or UPDATE of a flushed object.
  pub put_account : Accounts → LedgerAccount → Accounts
  pub transfer : Transfers → String → Option LedgerTransfer
  -- `query(LedgerTransfer).order_by(created_at.desc())`
  pub newest_transfers : Transfers → List LedgerTransfer
  pub add_transfer : Transfers → LedgerTransfer → Transfers
  -- The journal of one transfer.
  pub entries : Entries → String → List LedgerEntry
  pub add_entry : Entries → LedgerEntry → Entries
  -- `query(LedgerAuditEvent).filter(transfer_id.in_(ids)).order_by(created_at.asc())`
  pub audits : Audits → List String → List LedgerAuditEvent
  pub add_audit : Audits → LedgerAuditEvent → Audits

-- The row with this primary key.
abbrev pub find_account : List LedgerAccount → String → Option LedgerAccount
find_account [] k = none
find_account (a ∷ rows) k = if str_eq a.account_id k then some a else find_account rows k

-- The rows after an UPDATE by primary key.
abbrev pub replace_account : LedgerAccount → List LedgerAccount → List LedgerAccount
replace_account a [] = []
replace_account a (b ∷ rows) =
    if str_eq b.account_id a.account_id then a ∷ rows else b ∷ replace_account a rows

pub record IsLawful (T : Tables) : Type 0 where
  pub account-put_account :
      (s : T.Accounts) (a : LedgerAccount) (k : String)
      → T.account (T.put_account s a) k ≡ (if str_eq a.account_id k then some a else T.account s k)
  pub account-accounts :
      (s : T.Accounts) (k : String) → T.account s k ≡ find_account (T.accounts s) k
  pub accounts-put_account :
      (s : T.Accounts) (a old : LedgerAccount)
      → T.account s a.account_id ≡ some old
      → T.accounts (T.put_account s a) ≡ replace_account a (T.accounts s)
  pub transfer-add_transfer :
      (s : T.Transfers) (t : LedgerTransfer) (k : String)
      → T.transfer s t.transfer_id ≡ none
      → T.transfer (T.add_transfer s t) k
        ≡ (if str_eq t.transfer_id k then some t else T.transfer s k)
  pub entries-add_entry :
      (s : T.Entries) (e : LedgerEntry) (k : String) (p : LedgerEntry → Bool)
      → any p (T.entries (T.add_entry s e) k)
        ≡ ((str_eq e.transfer_id k && p e) || any p (T.entries s k))
  pub audits-add_audit :
      (s : T.Audits) (e : LedgerAuditEvent) (k : String) (p : LedgerAuditEvent → Bool)
      → any p (T.audits (T.add_audit s e) (k ∷ []))
        ≡ ((str_eq e.transfer_id k && p e) || any p (T.audits s (k ∷ [])))

-- The committed contents, or what an open transaction sees. The ledger only reads the merchants.
pub record Store (T : Tables) : Type 0 where
  pub merchants : List String
  pub accounts : T.Accounts
  pub transfers : T.Transfers
  pub entries : T.Entries
  pub audits : T.Audits

-- `engine.dialect.name`, whether the service accepts a commit that would leave a store, and whether
-- it answers the reads of a committed store; otherwise they raise.
pub record Engine (T : Tables) : Type 0 where
  pub dialect : String
  pub accepts : Store T → Bool
  pub answers : Store T → Bool
