-- ===== src/SshConfig/Visited.antt =====
-- The files that the parser of internal/sshconfig/import.go has not visited yet.
use tunnel_board.Prelude.{
  ℕ, suc, ◌≤◌, ◌<◌, String, Bool, true, false, text_eq, nat_eq, ◌==◌, Option, some, List, [], ◌∷◌,
  ◌≡◌, refl, sym, subst, ap, arith, eq_iff, contains, inl, inr, Bool-cases, if◌then◌else◌,
}
use tunnel_board.SshConfig.{ConfigEntry, ConfigOption, HostPattern}
use tunnel_board.SshConfig.Parse.{Parser, keep_entry, ◌>>=◌}

-- how many of some files are not visited
abbrev pub unvisited : List String → List String → ℕ
unvisited [] visited = 0
unvisited (f ∷ fs) visited =
    let rest = unvisited fs visited in if contains f visited then rest else suc rest

pub unvisited-visit :
    (fs : List String) (file : String) (visited : List String)
    → (unvisited fs (file ∷ visited) ≤ unvisited fs visited)
      × (contains file fs ≡ true
          → contains file visited ≡ false
          → unvisited fs (file ∷ visited) < unvisited fs visited)
unvisited-visit [] file visited = (ground arith, λ h k. ground (arith, h))
unvisited-visit (f ∷ fs) file visited =
    let (less, strict) = unvisited-visit fs file visited in
    let turned : (f == file) ≡ true → (file == f) ≡ true =
      λ h. (eq_iff file f).1 (sym ((eq_iff f file).0 h)) in
    elim (Bool-cases (file == f)) [
      | inl e ↦
          let same : file ≡ f = (eq_iff file f).0 e in
          let seen : contains f visited ≡ contains file visited =
            ap (λ z. contains z visited) (sym same) in
          (ground (arith, less, e), λ h k. ground (arith, less, seen, e, k))
      | inr e ↦ (
        ground (arith, less, e),
        λ h k.
            let inside : contains file fs ≡ true = ground (arith, e, h, turned) in
            let s = strict inside k in ground (arith, s, less, e),
      )
    ]

-- a result that leaves at most so many files unvisited
abbrev pub Parses : List String → ℕ → Option Parser → Type 0
Parses files k result = (q : Parser) × (result ≡ some q) × (unvisited files q.visited_files ≤ k)

pub Parses-weaken :
    (files : List String) (j k : ℕ) (result : Option Parser)
    → j ≤ k
    → Parses files j result
    → Parses files k result
Parses-weaken files j k result le (q, e, less) = (q, e, omega (arith, le, less))

-- the same for a line, which leaves an entry open
abbrev pub Opens : List String → ℕ → Option (ConfigEntry × Parser) → Type 0
Opens files k result =
    (d : ConfigEntry) × (q : Parser) × (result ≡ some (d, q))
    × (unvisited files q.visited_files ≤ k)

pub if-Opens :
    (files : List String) (k : ℕ) (b : Bool) (x y : Option (ConfigEntry × Parser))
    → Opens files k x
    → Opens files k y
    → Opens files k (if b then x else y)
if-Opens files k true x y a c = a
if-Opens files k false x y a c = c

module _ (files : List String) (k : ℕ) where
  pub Parses-bind :
      (result : Option Parser) (next : Parser → Option Parser)
      → Parses files k result
      → ((q : Parser) → unvisited files q.visited_files ≤ k → Parses files k (next q))
      → Parses files k (result >>= next)
  Parses-bind result next (q, e, less) go =
      subst (λ r. Parses files k (r >>= next)) (sym e) (go q less)

pub visited-keep_entry :
    (c : ConfigEntry) (p : Parser) → (keep_entry c p).visited_files ≡ p.visited_files
visited-keep_entry c p = by_lists c.options c.patterns
  where
    by_lists :
        (os : List ConfigOption) (ps : List HostPattern)
        → (keep_entry (record c { options = os; patterns = ps }) p).visited_files ≡ p.visited_files
    by_lists [] [] = refl
    by_lists [] (x ∷ ps) = refl
    by_lists (o ∷ os) ps = refl
