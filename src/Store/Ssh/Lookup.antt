-- ===== src/Store/Ssh/Lookup.antt =====
-- What the operations on SSH connections of client/internal/store/store.go do to a look-up by identifier.
use safelink_ssh.Base.{
  ◌≡◌, ◌≢◌, refl, ap, ◌∙◌, subst, Bool, true, false, Option, none, some, List, [], ◌∷◌, Result, ok,
  err, arith, if◌then◌else◌, ◌>>=◌, pure,
}
use safelink_ssh.Text.{Text, text_eq}
use safelink_ssh.Text.Laws.{text_eq_iff, text_eq_refl}
use safelink_ssh.Store.{
  SshConnection, World, StoreError, Action, ssh_conns_path, holds, id_or_random, new_id,
  id_or_random_lem,
}
use safelink_ssh.Store.Disk.{load_ssh_connections, save_ssh_connections}
use safelink_ssh.Store.Disk.Transact.{
  parsed, load_rule, lift_rule, bind_rule, save_rule, Transacts, last_save-Transacts,
}
use safelink_ssh.Store.Ssh.{
  check_connection, put_connection, write_connection, save_ssh_connection, without_connection,
  drop_connection, delete_ssh_connection,
}

-- The first connection with an identifier.
abbrev pub find_connection : Text → List SshConnection → Option SshConnection
find_connection id [] = none
find_connection id (c ∷ conns) = if text_eq c.id id then some c else find_connection id conns

find-put :
    (c : SshConnection) (cs : List SshConnection)
    → find_connection c.id (put_connection c cs) ≡ some c
unfolding put_connection
find-put c [] = rw (text_eq_refl c.id)
find-put c (d ∷ cs) = ground (arith, text_eq_refl c.id, find-put c cs)

find-put_other :
    (c : SshConnection) (cs : List SshConnection) (id : Text)
    → id ≢ c.id
    → find_connection id (put_connection c cs) ≡ find_connection id cs
unfolding put_connection
find-put_other c [] id ne = ground (arith, text_eq_iff c.id id)
find-put_other c (d ∷ cs) id ne = ground (
  arith,
  text_eq_iff c.id id,
  text_eq_iff d.id c.id,
  text_eq_iff d.id id,
  find-put_other c cs id ne,
)

find-without :
    (id : Text) (cs : List SshConnection) → find_connection id (without_connection id cs).0 ≡ none
unfolding without_connection
find-without id [] = refl
find-without id (d ∷ cs) = ground (arith, find-without id cs)

find-without_other :
    (id : Text) (cs : List SshConnection) (other : Text)
    → other ≢ id
    → find_connection other (without_connection id cs).0 ≡ find_connection other cs
unfolding without_connection
find-without_other id [] other ne = refl
find-without_other id (d ∷ cs) other ne =
    ground (arith, text_eq_iff d.id id, text_eq_iff d.id other, find-without_other id cs other ne)

without-found :
    (id : Text) (cs : List SshConnection)
    → (without_connection id cs).1 ≡ false
    → find_connection id cs ≡ none
unfolding without_connection
without-found id [] h = refl
without-found id (d ∷ cs) h = ground (arith, without-found id cs)

found-without :
    (id : Text) (cs : List SshConnection)
    → (without_connection id cs).1 ≡ true
    → find_connection id cs ≢ none
unfolding without_connection
found-without id [] h = λ e. cc
found-without id (d ∷ cs) h = λ e. ground (arith, found-without id cs)

-- What a save that goes through did: the connection comes back as it was passed, under an identifier
-- that finds it, and every other identifier finds what it found.
abbrev pub Saves : SshConnection → World → Result StoreError SshConnection × World → Type 0
Saves conn w (ok c, v) =
    (cs : List SshConnection) × (cs' : List SshConnection) × (parsed ssh_conns_path [] w ≡ ok cs)
    × (v.files ≡ ssh_conns_path.put (holds cs') w.files)
    × (c ≡ record conn { id = new_id conn.id w })
    × (find_connection c.id cs' ≡ some c)
    × ((id : Text) → id ≢ c.id → find_connection id cs' ≡ find_connection id cs)
Saves conn w (err e, v) = v.files ≡ w.files

write-Saves :
    (conn : SshConnection) (w v : World) (cs : List SshConnection)
    → parsed ssh_conns_path [] w ≡ ok cs
    → v.files ≡ w.files
    → Saves conn w (write_connection cs (record conn { id = new_id conn.id w }) v)
unfolding write_connection
write-Saves conn w v cs sees same =
    let c = record conn { id = new_id conn.id w } in
    save_rule (Saves conn w) ssh_conns_path (put_connection c cs) (pure c) v
      (λ e u files. files ∙ same)
      λ u files entropy drawn. (
        cs,
        put_connection c cs,
        sees,
        files ∙ ap (ssh_conns_path.put (holds (put_connection c cs))) same,
        refl,
        find-put c cs,
        find-put_other c cs,
      )

-- SaveSSHConnection changes no file when it fails; when it succeeds, the file finds the connection
-- under its identifier, the one passed or eight random bytes, and every other identifier finds what it
-- found before.
pub save_connection-Saves :
    (conn : SshConnection) (w : World) → Saves conn w (save_ssh_connection conn w)
unfolding save_ssh_connection
save_connection-Saves conn w =
    lift_rule (Saves conn w) (check_connection conn) (λ (u : Unit {0}). body) w (λ e. refl)
      λ u checked.
        load_rule (Saves conn w) ssh_conns_path [] rest w (λ e r. refl)
          λ cs r sees.
            let (v, e, files, entropy) = id_or_random_lem conn.id (record w { io = r }) in
            bind_rule (Saves conn w) (id_or_random conn.id) (write cs) (record w { io = r }) v
              (new_id conn.id w) e (write-Saves conn w v cs sees files)
  where
    write : List SshConnection → Text → Action SshConnection
    write cs id = write_connection cs (record conn { id = id })

    rest : List SshConnection → Action SshConnection
    rest cs = do id ← id_or_random conn.id; write cs id

    body : Action SshConnection
    body = do cs ← load_ssh_connections; rest cs

-- The same for a deletion: the identifier finds nothing any more.
abbrev pub Drops : Text → World → Result StoreError (Unit {0}) × World → Type 0
Drops id w (ok u, v) =
    (cs : List SshConnection) × (cs' : List SshConnection) × (parsed ssh_conns_path [] w ≡ ok cs)
    × (v.files ≡ ssh_conns_path.put (holds cs') w.files)
    × (find_connection id cs ≢ none)
    × (find_connection id cs' ≡ none)
    × ((other : Text) → other ≢ id → find_connection other cs' ≡ find_connection other cs)
Drops id w (err e, v) = v.files ≡ w.files

drop-Drops :
    (id : Text) (w v : World) (cs : List SshConnection) (r : List SshConnection × Bool)
    → parsed ssh_conns_path [] w ≡ ok cs
    → v.files ≡ w.files
    → without_connection id cs ≡ r
    → Drops id w (drop_connection id r v)
unfolding drop_connection
drop-Drops id w v cs (rest, true) sees same e =
    go (save_ssh_connections rest v)
      (last_save-Transacts ssh_conns_path [] (λ a. ok (rest, tt)) w v cs rest sees refl same)
  where
    go :
        (o : Result StoreError (Unit {0}) × World)
        → Transacts ssh_conns_path [] (λ a. ok (rest, tt)) w o
        → Drops id w o
    go (ok u, x) (a, a', reads, computes, files) = (
      cs,
      rest,
      sees,
      cc,
      found-without id cs (ap (λ q. q.1) e),
      subst (λ q. find_connection id q ≡ none) (ap (λ q. q.0) e) (find-without id cs),
      λ other ne.
          subst (λ q. find_connection other q ≡ find_connection other cs) (ap (λ q. q.0) e)
            (find-without_other id cs other ne),
    )
    go (err x, u) h = h
drop-Drops id w v cs (rest, false) sees same e = same

-- DeleteSSHConnection changes no file when it fails, and it fails if the identifier finds nothing; when
-- it succeeds, the identifier finds nothing and every other one finds what it found before.
pub delete_connection-Drops : (id : Text) (w : World) → Drops id w (delete_ssh_connection id w)
unfolding delete_ssh_connection
delete_connection-Drops id w =
    load_rule (Drops id w) ssh_conns_path [] (λ cs. drop_connection id (without_connection id cs)) w
      (λ e r. refl)
      λ cs r sees.
        drop-Drops id w (record w { io = r }) cs (without_connection id cs) sees refl refl
