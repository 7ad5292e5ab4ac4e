-- ===== src/Catalog/Delete/Exact.antt =====
-- What a deletion removes without a confirmed cascade (`DeleteSelection` of internal/biz/catalog.go).
use tunnel_board.Prelude.{
  ℕ, ◌≡◌, ap, filter, not, contains, ◌∙◌, false, nat_eq, List, [], ◌∷◌, arith,
}
use tunnel_board.Result.{Result, ok, ◌>>=◌, ◌>>◌, >>=-eq-ok, >>-eq-ok}
use tunnel_board.Model.{Folder, Forward, VaultData}
use tunnel_board.Model.Validate.{validate, check_each}
use tunnel_board.Catalog.{commit}
use tunnel_board.Catalog.Delete.{
  Selection, expand_folders, expand_forwards, plan_deletion, without, delete_selection_in,
  remaining_refs, check_unused, check_selected,
}

expand_folders-exact :
    (fs : List Folder) (deleted R : List ℕ) → expand_folders false fs deleted ≡ ok R → R ≡ deleted
unfolding expand_folders
expand_folders-exact [] deleted R h = ground (arith, h)
expand_folders-exact (f ∷ fs) deleted R h = ground (arith, h, expand_folders-exact fs deleted R)

expand_forwards-exact :
    (folders : List ℕ) (fws : List Forward) (deleted F : List ℕ)
    → expand_forwards false folders fws deleted ≡ ok F
    → F ≡ deleted
unfolding expand_forwards
expand_forwards-exact folders [] deleted F h = ground (arith, h)
expand_forwards-exact folders (fw ∷ fws) deleted F h =
    ground (arith, h, expand_forwards-exact folders fws deleted F)

plan_deletion-exact :
    (sel : Selection) (d : VaultData) (R F : List ℕ)
    → plan_deletion (record sel { cascade_folders = false }) d ≡ ok (R, F)
    → (R ≡ sel.folder_ids) × (F ≡ sel.forward_ids)
unfolding plan_deletion
plan_deletion-exact sel d R F h =
    let (selected, h₁) =
      >>-eq-ok (check_each (check_selected d.folders) sel.folder_ids)
        (expand_folders false d.folders sel.folder_ids >>= rest) h in
    let (folders, e₁, h₂) = >>=-eq-ok (expand_folders false d.folders sel.folder_ids) rest h₁ in
    let (forwards, e₂, h₃) =
      >>=-eq-ok (expand_forwards false folders d.forwards sel.forward_ids) (last folders) h₂ in
    let (unused, same) =
      >>-eq-ok (check_each (check_unused (remaining_refs forwards d.forwards)) sel.ssh_host_ids)
        (ok (folders, forwards)) h₃ in
    (
      ground (arith, same, expand_folders-exact d.folders sel.folder_ids folders e₁),
      ground (arith, same, expand_forwards-exact folders d.forwards sel.forward_ids forwards e₂),
    )
  where
    last : List ℕ → List ℕ → Result (List ℕ × List ℕ)
    last folders forwards = do
      check_each (check_unused (remaining_refs forwards d.forwards)) sel.ssh_host_ids
      ok (folders, forwards)

    rest : List ℕ → Result (List ℕ × List ℕ)
    rest folders = do
      forwards ← expand_forwards false folders d.forwards sel.forward_ids
      last folders forwards

commit-eq-ok : (d d' : VaultData) → commit tt d ≡ ok (tt, d') → d' ≡ d
unfolding commit
commit-eq-ok d d' h =
    let (valid, same) = >>-eq-ok (validate d) (ok (tt, d)) h in ground (arith, same)

delete_selection_in-without :
    (sel : Selection) (d d' : VaultData)
    → delete_selection_in (record sel { cascade_folders = false }) d ≡ ok (tt, d')
    → d' ≡ without d sel.folder_ids sel.forward_ids sel.ssh_host_ids
unfolding delete_selection_in
delete_selection_in-without sel d d' h =
    let ((R, F), planned, written) = >>=-eq-ok _ _ h in
    let (folders, forwards) = plan_deletion-exact sel d R F planned in
    commit-eq-ok _ d' written ∙ (λ i. without d (folders i) (forwards i) sel.ssh_host_ids)

-- A deletion without a confirmed cascade that is written leaves, in their order, exactly the folders,
-- hosts and forwards that are not selected and the web routes whose forward is not selected, and leaves
-- the version, the host keys and the preferences as they were.
pub delete_selection_in-exact :
    (sel : Selection) (d d' : VaultData)
    → delete_selection_in (record sel { cascade_folders = false }) d ≡ ok (tt, d')
    → (d'.folders ≡ filter (λ f. not (contains f.id sel.folder_ids)) d.folders)
      × (d'.ssh_hosts ≡ filter (λ h. not (contains h.id sel.ssh_host_ids)) d.ssh_hosts)
      × (d'.forwards ≡ filter (λ fw. not (contains fw.id sel.forward_ids)) d.forwards)
      × (d'.web_routes ≡ filter (λ r. not (contains r.forward_id sel.forward_ids)) d.web_routes)
      × (d'.version ≡ d.version)
      × (d'.host_keys ≡ d.host_keys)
      × (d'.prefs ≡ d.prefs)
unfolding without
delete_selection_in-exact sel d d' h =
    let e = delete_selection_in-without sel d d' h in
    (
      ap (λ z. z.folders) e,
      ap (λ z. z.ssh_hosts) e,
      ap (λ z. z.forwards) e,
      ap (λ z. z.web_routes) e,
      ap (λ z. z.version) e,
      ap (λ z. z.host_keys) e,
      ap (λ z. z.prefs) e,
    )
