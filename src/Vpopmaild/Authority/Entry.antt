-- ===== src/Vpopmaild/Authority/Entry.antt =====
-- vpopmaild.c: who gets past the login, and with which rights.
use vpopmail.Common.{
  ℕ, ◌↔◌, codes, take, ◌≡◌, Bool, true, List, [], ◌∷◌, ◌++◌, some, Bytes, ltb, ◌⊎◌, if◌then◌else◌,
}
use vpopmail.Vpopmaild.{Vqpasswd, Call, Library, Session, Connection}
use vpopmail.Vpopmaild.Login.{
  LoginStatus, accepted, missing, invalid, Login, Try, blank, quits, tried, Outcome, entered, ended,
}

-- The account is an administrator's of the system, or of its domain.
abbrev pub IsSystem : Vqpasswd → Type 0
IsSystem pw = pw.pw_gid 16 ≡ true

abbrev pub IsDomain : Vqpasswd → Type 0
IsDomain pw = (pw.pw_gid 12 ≡ true) ⊎ (codes "postmaster" ≡ pw.pw_name)

-- The bits of the session are those of the account, and for a postmaster who is not an administrator of
-- the system that of a domain's administrator.
abbrev pub HasRights : Vqpasswd → (ℕ → Bool) → Type 0
HasRights pw gid =
    (bit : ℕ)
    → (gid bit ≡ true) ↔ (
        (pw.pw_gid bit ≡ true) ⊎ ((bit ≡ 12) × (codes "postmaster" ≡ pw.pw_name) × (¬ IsSystem pw)))

abbrev pub HasLevel : Vqpasswd → ℕ → Type 0
HasLevel pw level =
    (IsSystem pw × (level ≡ 3))
    ⊎ ((¬ IsSystem pw) × IsDomain pw × (level ≡ 2))
    ⊎ ((¬ IsSystem pw) × (¬ IsDomain pw) × (level ≡ 1))

module _ (L : Library) where
  -- The session belongs to an account whose password was given, with the rights and the level of the
  -- account.
  pub record Verified (w : L.World) (s : Session) : Type 0 where
    pub entry : Vqpasswd
    pub pass : Bytes
    pub known : L.getpw s.the_user s.the_domain w ≡ some entry
    pub fits : L.crypt s.the_user s.the_domain pass entry w ≡ true
    pub rights : HasRights entry s.auth.pw_gid
    pub level : HasLevel entry s.logged_in
    pub rest : record s.auth { pw_gid = entry.pw_gid } ≡ entry
    pub home : s.the_user_dir ≡ take 255 entry.pw_dir

  abbrev Same : Connection L → Connection L → Type 0
  Same c d = (d.world ≡ c.world) × (d.log ≡ c.log)

  -- What a session that begins shows of its own account.
  abbrev pub own_entry : Session → List Call
  own_entry s = if ltb s.output_type 2 then Call.send_info s.the_user s.the_domain ∷ [] else []

  abbrev pub Begun : Connection L → Session → Connection L → Type 0
  Begun c s d = (d.world ≡ c.world) × (d.log ≡ own_entry s ++ c.log)

  abbrev FineStatus : Connection L → LoginStatus → Type 0
  FineStatus c (accepted s) = Verified c.world s
  FineStatus c missing = Unit
  FineStatus c invalid = Unit

  abbrev After : LoginStatus → Connection L → Connection L → Type 0
  After (accepted s) c d = Begun c s d
  After missing c d = Same c d
  After invalid c d = Same c d

  record FineLogin (c : Connection L) (r : Login L) : Type 0 where
    status : FineStatus c r.0
    same : After r.0 c r.2

  abbrev FineTry : Connection L → Try L → Type 0
  FineTry c blank = Unit
  FineTry c quits = Unit
  FineTry c (tried r) = FineLogin c r

  -- What holds however the loop ends.
  abbrev pub Ends : Connection L → Outcome L → Type 0
  Ends c (entered s d) = Verified c.world s × Begun c s d
  Ends c (ended d) = Same c d
