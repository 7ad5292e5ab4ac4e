-- ===== src/Helper/Disk.antt =====
-- `WriteManagedHosts` and `rollback` (internal/helper/hostsfile.go): the hosts file with its backup
-- and temporary file. Which calls of the operating system fail is an argument.
use tunnel_board.Prelude.{String, ◌≡◌, refl, ap, Bool, true, false, List, Option, none, some}
use tunnel_board.Route.Hosts.{HostEntry}
use tunnel_board.Helper.HostsFile.{render_managed_hosts}

-- what a path holds, or none
pub record Disk : Type 0 where
  pub hosts : Option String
  pub backup : Option String
  pub temp : Option String

-- A write goes through, or fails and leaves something at the path.
pub data Write : Type 0 where
  goes_through : Write
  fails_with : Option String → Write

pub record Faults : Type 0 where
  pub reads : Bool
  pub writes_backup : Write
  pub writes_temp : Write
  pub renames : Bool
  pub reads_backup : Bool
  pub restores : Write

pub data Outcome : Type 0 where
  done : Outcome
  read_failed backup_failed temp_failed rename_failed : Outcome
  -- the rollback after a failure failed as well
  not_rolled_back : Outcome

-- `readHostsOrEmpty`, where the read goes through
abbrev pub text_of : Option String → String
text_of none = ""
text_of (some s) = s

-- `rollback`, of a backup that holds the text
abbrev restore : Write → Outcome → Disk → Option String → Disk × Outcome
restore w cause d none = (d, not_rolled_back)
restore goes_through cause d (some content) = (record d { hosts = some content }, cause)
restore (fails_with left) cause d (some content) = (record d { hosts = left }, not_rolled_back)

unfoldable pub rollback : Faults → Outcome → Disk → Disk × Outcome
rollback ft cause d = elim ft.reads_backup [
  | true ↦ restore ft.restores cause d d.backup
  | false ↦ (d, not_rolled_back)
]

abbrev replace : Faults → String → Disk → Write → Bool → Disk × Outcome
replace ft rendered d (fails_with left) renames = rollback ft temp_failed (record d { temp = left })
replace ft rendered d goes_through false = rollback ft rename_failed (record d { temp = none })
replace ft rendered d goes_through true = (record d { hosts = some rendered; temp = none }, done)

abbrev back_up : Faults → String → String → Disk → Write → Disk × Outcome
back_up ft original rendered d (fails_with left) = (record d { backup = left }, backup_failed)
back_up ft original rendered d goes_through =
    replace ft rendered (record d { backup = some original }) ft.writes_temp ft.renames

unfoldable pub write_managed_hosts : Faults → List HostEntry → Disk → Disk × Outcome
unfolding rollback render_managed_hosts
write_managed_hosts ft entries d = elim ft.reads [
  | true ↦
      let original = text_of d.hosts in
      back_up ft original (render_managed_hosts original entries) d ft.writes_backup
  | false ↦ (d, read_failed)
]

abbrev pub is_done : Outcome → Bool
is_done done = true
is_done _ = false

-- what a rewrite may come to
pub data Rewritten (old : Disk) (entries : List HostEntry) : Disk × Outcome → Type 0 where
  written :
      {d : Disk}
      → d.hosts ≡ some (render_managed_hosts (text_of old.hosts) entries)
      → Rewritten old entries (d, done)
  kept :
      {d : Disk} {o : Outcome}
      → is_done o ≡ false
      → text_of d.hosts ≡ text_of old.hosts
      → Rewritten old entries (d, o)
  saved :
      {d : Disk} → d.backup ≡ some (text_of old.hosts) → Rewritten old entries (d, not_rolled_back)

module _ (old : Disk) (entries : List HostEntry) where
  restore-Rewritten :
      (w : Write) (cause : Outcome) (d : Disk) (o : Option String)
      → is_done cause ≡ false
      → o ≡ some (text_of old.hosts)
      → d.backup ≡ some (text_of old.hosts)
      → Rewritten old entries (restore w cause d o)
  restore-Rewritten w cause d none f e b = saved b
  restore-Rewritten goes_through cause d (some content) f e b = kept f (ap text_of e)
  restore-Rewritten (fails_with left) cause d (some content) f e b = saved b

  rollback-Rewritten :
      (ft : Faults) (cause : Outcome) (d : Disk)
      → is_done cause ≡ false
      → d.backup ≡ some (text_of old.hosts)
      → Rewritten old entries (rollback ft cause d)
  unfolding rollback
  rollback-Rewritten ft cause d f e = go ft.reads_backup
    where
      go :
          (b : Bool)
          → Rewritten old entries (elim b [
            | true ↦ restore ft.restores cause d d.backup
            | false ↦ (d, not_rolled_back)
          ])
      go false = saved e
      go true = restore-Rewritten ft.restores cause d d.backup f e e

  replace-Rewritten :
      (ft : Faults) (d : Disk) (w : Write) (renames : Bool)
      → d.backup ≡ some (text_of old.hosts)
      → Rewritten old entries
          (replace ft (render_managed_hosts (text_of old.hosts) entries) d w renames)
  replace-Rewritten ft d (fails_with left) renames e = rollback-Rewritten ft temp_failed _ refl e
  replace-Rewritten ft d goes_through false e = rollback-Rewritten ft rename_failed _ refl e
  replace-Rewritten ft d goes_through true e = written refl

  back_up-Rewritten :
      (ft : Faults) (d : Disk) (w : Write)
      → d.hosts ≡ old.hosts
      → Rewritten old entries
          (back_up ft (text_of old.hosts) (render_managed_hosts (text_of old.hosts) entries) d w)
  back_up-Rewritten ft d (fails_with left) e = kept refl (ap text_of e)
  back_up-Rewritten ft d goes_through e =
      replace-Rewritten ft (record d { backup = some (text_of old.hosts) }) ft.writes_temp
        ft.renames refl

-- Whatever fails, `WriteManagedHosts` either reports success, and the hosts file is the rendered
-- one; or it reports a failure, and the file's text is as before; or it reports that the rollback
-- failed too, and the backup holds the text as it was.
pub write_managed_hosts-Rewritten :
    (ft : Faults) (entries : List HostEntry) (d : Disk)
    → Rewritten d entries (write_managed_hosts ft entries d)
unfolding write_managed_hosts
write_managed_hosts-Rewritten ft entries d = go ft.reads
  where
    go :
        (b : Bool)
        → Rewritten d entries (elim b [
          | true ↦
              back_up ft
                (text_of d.hosts)
                (render_managed_hosts (text_of d.hosts) entries)
                d
                ft.writes_backup
          | false ↦ (d, read_failed)
        ])
    go false = kept refl refl
    go true = back_up-Rewritten d entries ft d ft.writes_backup refl
