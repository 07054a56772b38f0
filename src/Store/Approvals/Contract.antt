-- ===== src/Store/Approvals/Contract.antt =====
-- What the approval store of src/persistence/sqlite/approvals.rs gives back.
use aegis_runtime.Records.Approval.{Approval, from_str}
use aegis_runtime.Store.Database.{ApprovalRow, Database, parsed}
use aegis_runtime.Store.Table.{order_asc}
use aegis_runtime.Store.Table.Reading.{
  IsAscending, order-IsAscending, In-query→, In-query←, read_all→, read_all←, read_all-IsAscending,
}
use aegis_runtime.Store.Approvals.{read_approval, list_pending}
use aegis_runtime.Prelude.{
  ◌≡◌, List, true, ok, ◌↔◌, >>=-eq-ok, str_eq, select, In, arith, text_append,
}

-- A reading keeps the time of the request.
time_kept :
    (r : ApprovalRow) (a : Approval) → read_approval r ≡ ok a → a.requested_at ≡ r.requested_at
unfolding read_approval
time_kept r a h =
    let (status, known, made) =
      >>=-eq-ok (parsed (from_str r.status) (text_append "Invalid status: " r.status)) _ h in
    ground (arith, made)

-- A listing of the pending approvals that meets no error lists exactly what the rows with status
-- `pending` read as, ordered by the time of the request, the oldest first.
pub list_pending_lem :
    (d : Database) (as' : List Approval)
    → list_pending d ≡ ok as'
    → IsAscending (λ a. a.requested_at) as'
      × ((a : Approval)
          → In a as' ↔ (
              (r : ApprovalRow) × In r d.approvals
              × (str_eq r.status "pending" ≡ true)
              × (read_approval r ≡ ok a)))
unfolding list_pending
list_pending_lem d as' h =
    let key = λ (r : ApprovalRow). r.requested_at in
    let p = λ (r : ApprovalRow). str_eq r.status "pending" in
    let rows = order_asc key (select p d.approvals) in
    (
      read_all-IsAscending read_approval key (λ a. a.requested_at) time_kept rows as' h
          (order-IsAscending key (select p d.approvals)),
      λ a. (
        λ m.
            let (r, k, g) = read_all→ read_approval rows as' a h m in
            let (n, pending) = In-query→ key p d.approvals r k in (r, n, pending, g),
        λ (r, n, pending, g).
            let (b, m, got) =
              read_all← read_approval rows as' r h (In-query← key p d.approvals r n pending) in
            let same : a ≡ b = ground (arith, g, got) in rw same m,
      ),
    )
