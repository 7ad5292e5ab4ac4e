-- ===== src/SshConfig/Includes.antt =====
-- Why the includes of `parseFile` in internal/sshconfig/import.go come to an end.
use tunnel_board.Prelude.{
  ℕ, zero, suc, All, to_lower, ◌≤◌, ◌<◌, String, true, text_eq, nat_eq, ◌==◌, Option, none, some,
  List, [], ◌∷◌, ◌≡◌, refl, sym, subst, ap, arith, contains, inl, inr, Bool-cases, CaseMap,
  if◌then◌else◌,
}
use tunnel_board.Helper.HostsFile.{split_lf}
use tunnel_board.SshConfig.{ConfigEntry, strip_inline_comment}
use tunnel_board.SshConfig.Parse.{
  ConfigFiles, Parser, keep_entry, follow, included, opened_entry, with_option, split_value_list,
  split_directive, expand_path, parse_each, include_each, parse_line, parse_lines, parse_content,
  parse_file, ◌>>=◌,
}
use tunnel_board.SshConfig.Visited.{
  unvisited, unvisited-visit, Parses, Parses-weaken, Parses-bind, Opens, if-Opens,
  visited-keep_entry,
}

module _ ⦃m : CaseMap⦄ where
  -- the paths that a directive includes, and those of a line
  abbrev pub included_paths : Option (String × String) → List String
  included_paths none = []
  included_paths (some (key, value)) =
      if to_lower key == "include" then split_value_list value else []

  abbrev pub includes_of : String → List String
  includes_of l = included_paths (split_directive (strip_inline_comment l))

module _ ⦃m : CaseMap⦄ (os : ConfigFiles) (files : List String) where
  -- a path of one of the files
  abbrev pub Names : String → Type 0
  Names path = (file : String) × (os.abs path ≡ some file) × (contains file files ≡ true)

  -- The path that a file includes is expanded, its pattern is a good one, and what it matches are some
  -- of the files.
  abbrev pub IsFound : String → String → Type 0
  IsFound file path =
      (glob : String) × (expand_path os path (os.dir file) ≡ some glob)
      × ((paths : List String) × (os.matching_files glob ≡ some paths) × All Names paths)

  -- A file that the system reads, with every path that its lines include found.
  abbrev pub IsReadable : String → Type 0
  IsReadable file =
      (content : String) × (os.read_file file ≡ some content)
      × All (λ l. All (IsFound file) (includes_of l)) (split_lf content)

  module _ (k : ℕ) (parse : String → Parser → Option Parser)
      (parses : (path : String) (p : Parser)
        → Names path
        → unvisited files p.visited_files ≤ k
        → Parses files k (parse path p)) where
    parse_each-Parses :
        (paths : List String) (p : Parser)
        → All Names paths
        → unvisited files p.visited_files ≤ k
        → Parses files k (parse_each os parse paths p)
    unfolding parse_each
    parse_each-Parses [] p named less = (p, refl, less)
    parse_each-Parses (f ∷ fs) p named less =
        Parses-bind files k (parse f p) (parse_each os parse fs) (parses f p named.0 less)
          (λ q h. parse_each-Parses fs q named.1 h)

    include_each-Parses :
        (file : String) (is : List String) (p : Parser)
        → All (IsFound file) is
        → unvisited files p.visited_files ≤ k
        → Parses files k (include_each os parse file is p)
    unfolding include_each
    include_each-Parses file [] p found less = (p, refl, less)
    include_each-Parses file (i ∷ is) p ((glob, e, (paths, f, named)), found) less =
        let r =
          Parses-bind files k (parse_each os parse paths p) (include_each os parse file is)
            (parse_each-Parses paths p named less) (λ q h. include_each-Parses file is q found h) in
        subst
          (λ x. Parses files k (
            x >>= λ pattern_path. os.matching_files pattern_path >>= λ found.
            parse_each os parse found p >>= include_each os parse file is))
          (sym e)
          (subst
            (λ x.
              Parses files k
                (x >>= λ found. parse_each os parse found p >>= include_each os parse file is))
            (sym f) r)

    included-Opens :
        (c : ConfigEntry) (result : Option Parser)
        → Parses files k result
        → Opens files k (included os c result)
    included-Opens c result (q, e, less) = (c, q, ap (included os c) e, less)

    follow-Opens :
        (file : String) (c : ConfigEntry) (p : Parser) (d : Option (String × String))
        → All (IsFound file) (included_paths d)
        → unvisited files p.visited_files ≤ k
        → Opens files k (follow os parse file c p d)
    follow-Opens file c p none found less = (c, p, refl, less)
    follow-Opens file c p (some (key, value)) found less =
        let parsed : Option (ConfigEntry × Parser) =
          included os c (include_each os parse file (split_value_list value) p) in
        let others : Option (ConfigEntry × Parser) =
          if to_lower key == "match"
          then some (c, p)
          else some (with_option os (to_lower key) value c, p) in
        if-Opens files k (to_lower key == "host")
          (some (opened_entry os file value, keep_entry c p)) _
          (_, _, refl, subst (λ v. unvisited files v ≤ k) (sym (visited-keep_entry c p)) less)
          (elim (Bool-cases (to_lower key == "include")) [
            | inl e ↦
                let paths : All (IsFound file) (split_value_list value) =
                  subst (λ b. All (IsFound file) (if b then split_value_list value else [])) e
                    found in
                subst (λ b. Opens files k (if b then parsed else others)) (sym e)
                  (included-Opens c _
                    (include_each-Parses file (split_value_list value) p paths less))
            | inr e ↦
                subst (λ b. Opens files k (if b then parsed else others)) (sym e)
                  (if-Opens files k (to_lower key == "match") (some (c, p))
                    (some (with_option os (to_lower key) value c, p)) (_, _, refl, less)
                    (_, _, refl, less))
          ])

    parse_lines-Parses :
        (file : String) (ls : List String) (c : ConfigEntry) (p : Parser)
        → All (λ l. All (IsFound file) (includes_of l)) ls
        → unvisited files p.visited_files ≤ k
        → Parses files k (parse_lines os parse file ls c p)
    unfolding parse_lines parse_line
    parse_lines-Parses file [] c p found less =
        (_, refl, subst (λ v. unvisited files v ≤ k) (sym (visited-keep_entry c p)) less)
    parse_lines-Parses file (l ∷ ls) c p found less =
        let (d, q, e, kept) =
          follow-Opens file c p (split_directive (strip_inline_comment l)) found.0 less in
        subst (λ x. Parses files k (x >>= λ z. parse_lines os parse file ls z.0 z.1)) (sym e)
          (parse_lines-Parses file ls d q found.1 kept)

  -- Suppose that finitely many files can be read and that each path that a line of one of them includes
  -- expands, to a pattern that matches some of these files only. Then parsing one of the files succeeds,
  -- with fuel for more levels than there are unvisited files, even if the files include each other;
  -- and it leaves no more files unvisited than before.
  pub parse_file-Parses :
      (readable : (file : String) → contains file files ≡ true → IsReadable file) (n : ℕ)
      (path : String) (p : Parser)
      → Names path
      → unvisited files p.visited_files < n
      → Parses files (unvisited files p.visited_files) (parse_file os n path p)
  unfolding parse_file parse_content
  parse_file-Parses readable zero path p named less = absurd (omega (arith, less))
  parse_file-Parses readable (suc n) path p (file, e, inside) less =
      let q : Parser = record p { visited_files = file ∷ p.visited_files } in
      let k = unvisited files p.visited_files in
      let start : ConfigEntry = record { patterns = []; options = []; source = file } in
      let (content, r, found) = readable file inside in
      subst
        (λ x. Parses files k (
          x >>= λ file.
          if contains file p.visited_files
          then some p
          else parse_content os (parse_file os n) file p))
        (sym e)
        (elim (Bool-cases (contains file p.visited_files)) [
          | inl h ↦
              subst
                (λ b.
                  Parses files k (if b then some p else parse_content os (parse_file os n) file p))
                (sym h) (p, refl, omega arith)
          | inr h ↦
              let fewer = (unvisited-visit files file p.visited_files).1 inside h in
              let lines =
                parse_lines-Parses (unvisited files q.visited_files) (parse_file os n)
                  (λ path' p' named' less'. Parses-weaken files _ _ _ less' (
                    parse_file-Parses readable n path' p' named'
                      (omega (arith, less, less', fewer))))
                  file (split_lf content) start q found (omega arith) in
              subst
                (λ b.
                  Parses files k (if b then some p else parse_content os (parse_file os n) file p))
                (sym h)
                (subst
                  (λ x. Parses files k (
                    x >>= λ content.
                    parse_lines os (parse_file os n) file (split_lf content) start q))
                  (sym r)
                  (Parses-weaken files (unvisited files q.visited_files) k _ (omega (arith, fewer))
                    lines))
        ])
