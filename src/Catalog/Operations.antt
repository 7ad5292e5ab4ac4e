-- ===== src/Catalog/Operations.antt =====
-- The operations of `CatalogBiz` together (internal/biz/catalog.go and internal/biz/trust.go): one
-- call after another on a store.
pub mod Sealed
pub mod Healthy
use tunnel_board.Prelude.{ℕ, String, List, [], ◌∷◌, CaseMap}
use tunnel_board.Model.{SshHost, Forward, WebRoute}
use tunnel_board.VaultStore.{VaultStore}
use tunnel_board.Catalog.Folders.{create_folder}
use tunnel_board.Catalog.Hosts.{SaveSshHostRequest, save_ssh_host, save_ssh_host_secure}
use tunnel_board.Catalog.Routes.{save_web_route, delete_web_route}
use tunnel_board.Catalog.Forwards.{save_forward, move_forwards}
use tunnel_board.Catalog.Delete.{Selection, delete_selection}
use tunnel_board.Catalog.HostKeys.{Offer, enroll_host_key, replace_host_key}

-- a call of a public method that writes
pub data Operation : Type 0 where
  creates_folder : String → ℕ → Operation
  saves_host : SshHost → Operation
  saves_host_secure : SaveSshHostRequest → Operation
  saves_route : WebRoute → Operation
  deletes_route : ℕ → Operation
  saves_forward : Forward → Operation
  moves_forwards : List ℕ → ℕ → Operation
  deletes_selection : Selection → Operation
  enrolls_host_key replaces_host_key : Offer → Operation

module _ ⦃m : CaseMap⦄ (v : VaultStore) where
  unfoldable pub perform : Operation → v.State → v.State
  unfolding create_folder save_ssh_host save_ssh_host_secure save_web_route delete_web_route
      save_forward move_forwards delete_selection enroll_host_key replace_host_key
  perform (creates_folder name parent_id) s = (create_folder v name parent_id s).0
  perform (saves_host h) s = (save_ssh_host v h s).0
  perform (saves_host_secure q) s = (save_ssh_host_secure v q s).0
  perform (saves_route r) s = (save_web_route v r s).0
  perform (deletes_route id) s = (delete_web_route v id s).0
  perform (saves_forward fw) s = (save_forward v fw s).0
  perform (moves_forwards ids target) s = (move_forwards v ids target s).0
  perform (deletes_selection sel) s = (delete_selection v sel s).0
  perform (enrolls_host_key o) s = (enroll_host_key v o s).0
  perform (replaces_host_key o) s = (replace_host_key v o s).0

  unfoldable pub perform_all : List Operation → v.State → v.State
  unfolding perform
  perform_all [] s = s
  perform_all (op ∷ ops) s = perform_all ops (perform op s)
