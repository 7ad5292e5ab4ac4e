-- ===== src/Catalog/Folders.antt =====
-- `CreateFolder`
use tunnel_board.Prelude.{
  ℕ, String, ◌==◌, text_eq, [], ◌∷◌, ◌++◌, length, if◌then◌else◌, trim_space,
}
use tunnel_board.Result.{Result, err, name_required}
use tunnel_board.Model.{Folder, VaultData}
use tunnel_board.Model.Validate.{folder_ids}
use tunnel_board.VaultStore.{VaultStore}
use tunnel_board.Catalog.{next_id, commit, run}

unfoldable pub new_folder : String → ℕ → VaultData → Folder
new_folder name parent_id d = record {
  id = next_id (folder_ids d);
  name = name;
  parent_id = parent_id;
  sort = length d.folders;
}

unfoldable pub create_folder_in : String → ℕ → VaultData → Result (Folder × VaultData)
unfolding new_folder commit
create_folder_in name parent_id d =
    let created = new_folder name parent_id d in
    commit created (record d { folders = d.folders ++ created ∷ [] })

unfoldable pub create_folder : (v : VaultStore) → String → ℕ → v.State → v.State × Result Folder
unfolding create_folder_in run
create_folder v name parent_id s =
    let trimmed = trim_space name in
    if trimmed == "" then (s, err name_required) else run v (create_folder_in trimmed parent_id) s
