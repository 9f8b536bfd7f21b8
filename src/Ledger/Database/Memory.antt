-- ===== src/Ledger/Database/Memory.antt =====
-- Tables kept as lists of rows, which meet the laws: what is assumed of the database can hold.
use payops_intelligence.Prelude.{
  ◌≡◌, refl, Bool, ◌&&◌, ◌||◌, Option, none, some, List, [], ◌∷◌, ◌++◌, String, str_eq, contains,
  eq_iff, arith, if◌then◌else◌,
}
use payops_intelligence.Prelude.Lists.{any, filter}
use payops_intelligence.Ledger.Rows.{LedgerAccount, LedgerTransfer, LedgerEntry, LedgerAuditEvent}
use payops_intelligence.Ledger.Database.{Tables, IsLawful, find_account, replace_account}

abbrev put : List LedgerAccount → LedgerAccount → List LedgerAccount
put [] a = a ∷ []
put (b ∷ rows) a = if str_eq b.account_id a.account_id then a ∷ rows else b ∷ put rows a

abbrev find_transfer : List LedgerTransfer → String → Option LedgerTransfer
find_transfer [] k = none
find_transfer (t ∷ rows) k = if str_eq t.transfer_id k then some t else find_transfer rows k

abbrev pub memory : Tables
memory = record {
  Accounts = List LedgerAccount;
  Transfers = List LedgerTransfer;
  Entries = List LedgerEntry;
  Audits = List LedgerAuditEvent;
  account = find_account;
  accounts = λ rows. rows;
  put_account = put;
  transfer = find_transfer;
  newest_transfers = λ rows. rows;
  add_transfer = λ rows t. t ∷ rows;
  entries = λ rows k. filter (λ e. str_eq e.transfer_id k) rows;
  add_entry = λ rows e. rows ++ e ∷ [];
  audits = λ rows ids. filter (λ e. contains ids e.transfer_id) rows;
  add_audit = λ rows e. rows ++ e ∷ [];
}

find_account-put :
    (rows : List LedgerAccount) (a : LedgerAccount) (k : String)
    → find_account (put rows a) k ≡ (if str_eq a.account_id k then some a else find_account rows k)
find_account-put [] a k = refl
find_account-put (b ∷ rows) a k = ground (
  arith,
  find_account-put rows a k,
  eq_iff b.account_id a.account_id,
  eq_iff b.account_id k,
  eq_iff a.account_id k,
)

put-replace_account :
    (rows : List LedgerAccount) (a old : LedgerAccount)
    → find_account rows a.account_id ≡ some old
    → put rows a ≡ replace_account a rows
put-replace_account [] a old h = ground arith
put-replace_account (b ∷ rows) a old h = ground (arith, put-replace_account rows a old)

any-filter_append {ℓ} :
    {A : Type ℓ} (keep p : A → Bool) (rows : List A) (e : A)
    → any p (filter keep (rows ++ e ∷ [])) ≡ ((keep e && p e) || any p (filter keep rows))
any-filter_append keep p [] e = ground arith
any-filter_append keep p (x ∷ rows) e = ground (arith, any-filter_append keep p rows e)

any-filter_in :
    (p : LedgerAuditEvent → Bool) (rows : List LedgerAuditEvent) (e : LedgerAuditEvent) (k : String)
    → any p (filter (λ r. contains (k ∷ []) r.transfer_id) (rows ++ e ∷ [])) ≡ (
        (str_eq e.transfer_id k && p e)
        || any p (filter (λ r. contains (k ∷ []) r.transfer_id) rows))
any-filter_in p rows e k =
    ground (arith, any-filter_append (λ r. contains (k ∷ []) r.transfer_id) p rows e)

pub memory-IsLawful : IsLawful memory
memory-IsLawful = record {
  account-put_account = find_account-put;
  account-accounts = λ rows k. refl;
  accounts-put_account = put-replace_account;
  transfer-add_transfer = λ rows t k h. refl;
  entries-add_entry = λ rows e k p. any-filter_append (λ r. str_eq r.transfer_id k) p rows e;
  audits-add_audit = λ rows e k p. any-filter_in p rows e k;
}
