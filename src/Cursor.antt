-- ===== src/Cursor.antt =====
-- internal/db/scanner.go, the table scanner_cursors: one row per scope (`TRX`, or a contract) with
-- the highest scanned block and the lease of the replica that scans the scope. A time is a number
-- of nanoseconds; `now` is the database's clock and `clock` the worker's (time.Now). A statement
-- of SQL is one function on the table; a NULL is `none`.
pub mod Lease
pub mod Progress
pub mod Examples
use tronvent.Base.{
  ℕ, ◌+◌, ◌*◌, ◌/◌, String, Bool, true, false, not, ◌&&◌, ◌||◌, Option, none, some, List, [], ◌∷◌,
  ltb, leb, ◌==◌, str_eq, if◌then◌else◌,
}

pub record CursorRow : Type 0 where
  pub highest_block : ℕ
  pub locked_by : Option String
  pub locked_until : Option ℕ
  pub updated_at : ℕ

-- The table by its primary key.
abbrev pub Cursors : Type 0
Cursors = String → Option CursorRow

abbrev pub put : Cursors → String → CursorRow → Cursors
put t scope row = λ k. if str_eq scope k then some row else t k

abbrev pub second : ℕ
second = 1_000_000_000

abbrev pub scanner_scope_lease_duration : ℕ
scanner_scope_lease_duration = 600 * second

-- int(lease.Seconds()), with the default for a lease that is not positive, and at least 1.
unfoldable pub lease_seconds : ℕ → ℕ
lease_seconds lease =
    let secs = (if lease == 0 then scanner_scope_lease_duration else lease) / second in
    if ltb secs 1 then 1 else secs

unfoldable pub lease_end : ℕ → ℕ → ℕ
unfolding lease_seconds
lease_end now lease = now + lease_seconds lease * second

abbrev pub row_highest : Option CursorRow → ℕ
row_highest none = 0
row_highest (some r) = r.highest_block

-- A missing row counts as block 0.
unfoldable pub get_scanned_block : Cursors → String → ℕ
get_scanned_block t scope = row_highest (t scope)

-- locked_by = worker, false where locked_by is NULL
abbrev pub held_by : Option String → String → Bool
held_by none worker = false
held_by (some w) worker = str_eq w worker

-- locked_until IS NULL OR locked_until < now()
abbrev pub lease_over : Option ℕ → ℕ → Bool
lease_over none now = true
lease_over (some until) now = ltb until now

-- INSERT … ON CONFLICT (scope) DO UPDATE … WHERE … RETURNING highest_block: the new table, the
-- returned block and whether a row was returned.
claim_row : ℕ → Cursors → String → String → ℕ → Option CursorRow → Cursors × ℕ × Bool
unfolding lease_end
claim_row now t scope worker lease none = (
  put t scope (record {
    highest_block = 0;
    locked_by = some worker;
    locked_until = some (lease_end now lease);
    updated_at = now;
  }),
  0,
  true,
)
claim_row now t scope worker lease (some r) =
    if lease_over r.locked_until now || held_by r.locked_by worker
    then (
      put t scope (record r {
        locked_by = some worker;
        locked_until = some (lease_end now lease);
        updated_at = now;
      }),
      r.highest_block,
      true,
    )
    else (t, 0, false)

unfoldable pub try_claim_scanner_scope : ℕ → Cursors → String → String → ℕ → Cursors × ℕ × Bool
unfolding claim_row
try_claim_scanner_scope now t scope worker lease = claim_row now t scope worker lease (t scope)

-- UPDATE … WHERE scope = $1 AND locked_by = $2; `false` is the error "lease not held".
renew_row : ℕ → Cursors → String → String → ℕ → Option CursorRow → Cursors × Bool
unfolding lease_end
renew_row now t scope worker lease none = (t, false)
renew_row now t scope worker lease (some r) =
    if held_by r.locked_by worker
    then (
      put t scope (record r { locked_until = some (lease_end now lease); updated_at = now }),
      true,
    )
    else (t, false)

unfoldable pub renew_scanner_scope_lease : ℕ → Cursors → String → String → ℕ → Cursors × Bool
unfolding renew_row
renew_scanner_scope_lease now t scope worker lease = renew_row now t scope worker lease (t scope)

release_row : ℕ → Cursors → String → String → Option CursorRow → Cursors × Bool
release_row now t scope worker none = (t, false)
release_row now t scope worker (some r) =
    if held_by r.locked_by worker
    then (put t scope (record r { locked_by = none; locked_until = none; updated_at = now }), true)
    else (t, false)

unfoldable pub release_scanner_scope : ℕ → Cursors → String → String → Cursors × Bool
unfolding release_row
release_scanner_scope now t scope worker = release_row now t scope worker (t scope)

-- lockedUntil.After(time.Now()), on the worker's clock
abbrev until_active : Option ℕ → ℕ → Bool
until_active none clock = true
until_active (some until) clock = ltb clock until

abbrev pub active_scanner_lease : Option String → Option ℕ → ℕ → Bool
active_scanner_lease none until clock = false
active_scanner_lease (some w) until clock = if str_eq w "" then false else until_active until clock

-- The body of SetScannedBlock's transaction after SELECT … FOR UPDATE; `false` is
-- ErrCursorLeaseConflict. An empty leaseHolder skips the lease test.
set_row : ℕ → ℕ → Cursors → String → ℕ → String → Option CursorRow → Cursors × Bool
set_row now clock t scope block holder none = (
  put t scope
      (record { highest_block = block; locked_by = none; locked_until = none; updated_at = now }),
  true,
)
set_row now clock t scope block holder (some r) =
    if not (str_eq holder "")
      && active_scanner_lease r.locked_by r.locked_until clock
      && not (held_by r.locked_by holder)
    then (t, false)
    else (
      put t scope (record r {
        highest_block = if ltb block r.highest_block then r.highest_block else block;
        updated_at = now;
      }),
      true,
    )

unfoldable pub set_scanned_block : ℕ → ℕ → Cursors → String → ℕ → String → Cursors × Bool
unfolding set_row
set_scanned_block now clock t scope block holder = set_row now clock t scope block holder (t scope)

-- A statement that some replica runs against the table.
pub data Call : Type 0 where
  claim : String → String → ℕ → Call
  renew : String → String → ℕ → Call
  release : String → String → Call
  set_block : ℕ → String → ℕ → String → Call

pub record Reply : Type 0 where
  pub table : Cursors
  pub accepted : Bool

unfoldable pub step : ℕ → Cursors → Call → Reply
unfolding try_claim_scanner_scope renew_scanner_scope_lease release_scanner_scope set_scanned_block
step now t (claim scope worker lease) =
    let (t', highest, accepted) = try_claim_scanner_scope now t scope worker lease in
    record { table = t'; accepted = accepted }
step now t (renew scope worker lease) =
    let (t', accepted) = renew_scanner_scope_lease now t scope worker lease in
    record { table = t'; accepted = accepted }
step now t (release scope worker) =
    let (t', accepted) = release_scanner_scope now t scope worker in
    record { table = t'; accepted = accepted }
step now t (set_block clock scope block holder) =
    let (t', accepted) = set_scanned_block now clock t scope block holder in
    record { table = t'; accepted = accepted }

-- A history of statements, each at its time of the database's clock.
unfoldable pub run : Cursors → List (ℕ × Call) → Cursors
run t [] = t
run t ((now, c) ∷ cs) = run (step now t c).table cs
