-- ===== src/Vpopmaild/Authority/Paths.antt =====
-- vpopmaild.c: the handlers on files stay below the directory of the session.
use vpopmail.Common.{
  ◌≡◌, Bool, true, false, List, [], ◌∷◌, Bytes, arith, take, drop, length, if◌then◌else◌,
}
use vpopmail.Vpopmaild.{Call, Library, Session, ok_more, Connection, Answer, noted, send, text}
use vpopmail.Vpopmaild.Files.{
  refused, front_of, has_char, starts_with_slash, below_root, may_enter, in_account, in_domain_dir,
  relative, validate_path, mk_dir, rm_dir, list_dir, rename_file, rm_file, write_file, read_file,
  stat_file, send_texts, shown_line,
}
use vpopmail.Vpopmaild.Authority.{
  below, allowed, Kept, Good, good, require-Good, present-Good, on_email-Good, on_call-Good,
  send_lines-Kept, noted-Kept,
}

module _ (L : Library) (s : Session) where
  if-Good : (b : Bool) (x y : Answer L) → Good L s x → Good L s y → Good L s (if b then x else y)
  if-Good true x y h k = h
  if-Good false x y h k = k

  -- What follows a path that is accepted makes allowed calls.
  abbrev Follows : (Bytes → Connection L → Answer L) → Type 0
  Follows k =
      (path : Bytes) (d : Connection L) → below s path ≡ true → Kept L s d → Good L s (k path d)

  below_root-Good :
      (path : Bytes) (c : Connection L) (k : Bytes → Connection L → Answer L)
      → Kept L s c
      → Follows k
      → Good L s (below_root L s path c k)
  unfolding below_root
  below_root-Good path c k h f = require-Good L s _ (refused s) c _ h (λ e. f path c e h)

  entered :
      (user domain : Bytes)
      → may_enter L s user domain ≡ true
      → allowed s (Call.use_account user domain) ≡ true
  entered user domain e = ground arith

  in_account-Good :
      (front rest : Bytes) (c : Connection L) (k : Bytes → Connection L → Answer L)
      → Kept L s c
      → Follows k
      → Good L s (in_account L s front rest c k)
  in_account-Good front rest c k h f = on_email-Good L s front 256 _ c _ h (λ user domain.
      present-Good L s _ _ c _ h (λ pw _. require-Good L s _ _ c _ h (λ e.
        let call = Call.use_account user domain in
        let used = noted-Kept L s call c h (entered user domain e) in
        below_root-Good _ (noted L call c) k used f)))

  in_domain_dir-Good :
      (front rest : Bytes) (c : Connection L) (k : Bytes → Connection L → Answer L)
      → Kept L s c
      → Follows k
      → Good L s (in_domain_dir L s front rest c k)
  in_domain_dir-Good front rest c k h f =
      present-Good L s _ _ c _ h (λ dir _. below_root-Good _ c k h f)

  relative-Good :
      (path : Bytes) (c : Connection L) (k : Bytes → Connection L → Answer L)
      → Kept L s c
      → Follows k
      → Good L s (relative L s path c k)
  relative-Good path c k h f =
      let front = front_of path in
      let rest = drop (length front) path in
      require-Good L s _ _ c _ h (λ _.
        if-Good (has_char b'@' path) _ _
          (require-Good L s _ _ c _ h (λ _. in_account-Good front rest c k h f))
          (in_domain_dir-Good front rest c k h f))

  pub validate_path-Good :
      (path : Bytes) (c : Connection L) (k : Bytes → Connection L → Answer L)
      → Kept L s c
      → ((p : Bytes) (d : Connection L) → below s p ≡ true → Kept L s d → Good L s (k p d))
      → Good L s (validate_path L s path c k)
  unfolding validate_path
  validate_path-Good path c k h f = require-Good L s _ _ c _ h (λ _.
      require-Good L s _ _ c _ h (λ _.
        if-Good (starts_with_slash path) _ _ (below_root-Good (take 255 path) c k h f)
          (relative-Good path c k h f)))

  pub mk_dir-Good : (rest : Bytes) (c : Connection L) → Kept L s c → Good L s (mk_dir L s rest c)
  unfolding mk_dir
  mk_dir-Good rest c h = require-Good L s _ _ c _ h (λ _.
      present-Good L s _ _ c _ h (λ (olddir, _) _.
        validate_path-Good olddir c _ h (λ dir d inside g.
          on_call-Good L s _ d _ _ g inside
            (λ e k. on_call-Good L s _ e _ _ k inside (good L s _)))))

  pub rm_dir-Good : (rest : Bytes) (c : Connection L) → Kept L s c → Good L s (rm_dir L s rest c)
  unfolding rm_dir
  rm_dir-Good rest c h = present-Good L s _ _ c _ h (λ (olddir, _) _.
      validate_path-Good olddir c _ h
        (λ dir d inside g. on_call-Good L s _ d _ _ g inside (good L s _)))

  pub list_dir-Good :
      (rest : Bytes) (c : Connection L) → Kept L s c → Good L s (list_dir L s rest c)
  unfolding list_dir
  list_dir-Good rest c h = present-Good L s _ _ c _ h (λ (olddir, _) _.
      validate_path-Good olddir c _ h (λ dir d inside g.
        let k = noted-Kept L s (Call.opendir dir) d g inside in
        require-Good L s _ _ _ _ k (λ _. present-Good L s _ _ _ _ k (λ rows _. good L s _ _ (
          send_lines-Kept L s _ (send L ok_more (noted L (Call.opendir dir) d))
            (record { all = k.all }))))))

  pub rename_file-Good :
      (rest : Bytes) (c : Connection L) → Kept L s c → Good L s (rename_file L s rest c)
  unfolding rename_file
  rename_file-Good rest c h = present-Good L s _ _ c _ h (λ (source, more) _.
      present-Good L s _ _ c _ h (λ (dest, _) _. validate_path-Good source c _ h (λ from d inside g.
        validate_path-Good dest d _ g
          (λ to e too k. on_call-Good L s _ e _ _ k (ground arith) (good L s _)))))

  pub rm_file-Good : (rest : Bytes) (c : Connection L) → Kept L s c → Good L s (rm_file L s rest c)
  unfolding rm_file
  rm_file-Good rest c h = present-Good L s _ _ c _ h (λ (name, _) _.
      validate_path-Good name c _ h
        (λ path d inside g. on_call-Good L s _ d _ _ g inside (good L s _)))

  pub write_file-Good :
      (rest : Bytes) (c : Connection L) → Kept L s c → Good L s (write_file L s rest c)
  unfolding write_file
  write_file-Good rest c h = present-Good L s _ _ c _ h (λ (name, _) _.
      validate_path-Good name c _ h (λ path d inside g.
        on_call-Good L s _ d _ _ g inside (λ e k. good L s _ _ (record { all = k.all }))))

  send_texts-Kept : (ls : List Bytes) (c : Connection L) → Kept L s c → Kept L s (send_texts L ls c)
  unfolding send_texts
  send_texts-Kept [] c h = h
  send_texts-Kept (l ∷ ls) c h =
      send_texts-Kept ls (send L (text (shown_line L l)) c) (record { all = h.all })

  pub read_file-Good :
      (rest : Bytes) (c : Connection L) → Kept L s c → Good L s (read_file L s rest c)
  unfolding read_file
  read_file-Good rest c h = present-Good L s _ _ c _ h (λ (name, _) _.
      validate_path-Good name c _ h (λ path d inside g.
        let k = noted-Kept L s (Call.read_contents path) d g inside in
        present-Good L s _ _ _ _ k (λ ls _. good L s _ _ (
          send_texts-Kept ls (send L ok_more (noted L (Call.read_contents path) d))
            (record { all = k.all })))))

  pub stat_file-Good :
      (rest : Bytes) (c : Connection L) → Kept L s c → Good L s (stat_file L s rest c)
  unfolding stat_file
  stat_file-Good rest c h = present-Good L s _ _ c _ h (λ (name, _) _.
      validate_path-Good name c _ h (λ path d inside g.
        let k = noted-Kept L s (Call.get_stat path) d g inside in
        present-Good L s _ _ _ _ k (λ uid _. good L s _ _ (record { all = k.all }))))
