-- ===== src/Config/Tunnel/Validity.antt =====
-- What ValidateTunnel of pkg/config/validate.go accepts, described without its order of checks.
use safelink_ssh.Base.{
  ◌≡◌, refl, ◌≢◌, ◌↔◌, ◌⊎◌, inl, inr, [], ◌∷◌, false, ◌&&◌, Bool-cases, ok, arith,
}
use safelink_ssh.Text.{Text, is_empty, text_eq}
use safelink_ssh.Text.Laws.{eq_of_text_eq, ne_nil, not_empty}
use safelink_ssh.Config.Tunnel.{
  SshCfg, TunnelCfg, mode_local, mode_remote, mode_dynamic, mode_vpn, validate_ssh, validate_tunnel,
}

-- An SSH account with an address, a user and a way to authenticate.
pub record HasAccount (s : SshCfg) : Type 0 where
  pub addr : s.addr ≢ []
  pub user : s.user ≢ []
  pub secret : (s.identity_file ≢ []) ⊎ (s.password ≢ [])

-- What each mode needs.
pub data IsComplete (t : TunnelCfg) : Type 0 where
  forwards :
      (t.mode ≡ mode_local) ⊎ (t.mode ≡ mode_remote)
      → t.listen ≢ []
      → t.forward ≢ []
      → HasAccount t.ssh
      → IsComplete t
  proxies : t.mode ≡ mode_dynamic → t.listen ≢ [] → HasAccount t.ssh → IsComplete t
  gateway :
      t.mode ≡ mode_vpn → t.forward ≢ [] → t.ssh.user ≢ [] → t.ssh.password ≢ [] → IsComplete t

not_both_empty : (s t : Text) → (is_empty s && is_empty t) ≡ false → (s ≢ []) ⊎ (t ≢ [])
not_both_empty [] t h = inr (ne_nil t h)
not_both_empty (c ∷ s) t h = inl (ne_nil (c ∷ s) refl)

pub validate_ssh-HasAccount : (s : SshCfg) → validate_ssh s ≡ ok tt → HasAccount s
unfolding validate_ssh
validate_ssh-HasAccount s h = record {
  addr = ne_nil s.addr (ground arith);
  user = ne_nil s.user (ground arith);
  secret = not_both_empty s.identity_file s.password (ground arith);
}

pub HasAccount-validate_ssh : (s : SshCfg) → HasAccount s → validate_ssh s ≡ ok tt
unfolding validate_ssh
HasAccount-validate_ssh s h = ground (
  arith,
  h.secret,
  not_empty s.addr,
  not_empty s.user,
  not_empty s.identity_file,
  not_empty s.password,
)

validate_tunnel-IsComplete :
    (t : TunnelCfg) → validate_tunnel t ≡ ok tt → (t.name ≢ []) × IsComplete t
unfolding validate_tunnel
validate_tunnel-IsComplete t h = (
  ne_nil t.name (ground arith),
  elim (Bool-cases (text_eq t.mode mode_local)) [
    | inl e ↦
        forwards (inl (eq_of_text_eq _ _ e)) (ne_nil t.listen (ground arith))
          (ne_nil t.forward (ground arith)) (validate_ssh-HasAccount t.ssh (ground arith))
    | inr l ↦ elim (Bool-cases (text_eq t.mode mode_remote)) [
      | inl e ↦
          forwards (inr (eq_of_text_eq _ _ e)) (ne_nil t.listen (ground arith))
            (ne_nil t.forward (ground arith)) (validate_ssh-HasAccount t.ssh (ground arith))
      | inr r ↦ elim (Bool-cases (text_eq t.mode mode_dynamic)) [
        | inl e ↦
            proxies (eq_of_text_eq _ _ e) (ne_nil t.listen (ground arith))
              (validate_ssh-HasAccount t.ssh (ground arith))
        | inr d ↦
            gateway (eq_of_text_eq _ _ (ground arith)) (ne_nil t.forward (ground arith))
              (ne_nil t.ssh.user (ground arith)) (ne_nil t.ssh.password (ground arith))
      ]
    ]
  ],
)

IsComplete-validate_tunnel :
    (t : TunnelCfg) → t.name ≢ [] → IsComplete t → validate_tunnel t ≡ ok tt
unfolding validate_tunnel text_eq
IsComplete-validate_tunnel t n (forwards (inl m) l f a) =
    rw (not_empty _ n, m, not_empty _ l, not_empty _ f) (HasAccount-validate_ssh _ a)
IsComplete-validate_tunnel t n (forwards (inr m) l f a) =
    rw (not_empty _ n, m, not_empty _ l, not_empty _ f) (HasAccount-validate_ssh _ a)
IsComplete-validate_tunnel t n (proxies m l a) =
    rw (not_empty _ n, m, not_empty _ l) (HasAccount-validate_ssh _ a)
IsComplete-validate_tunnel t n (gateway m f u p) =
    rw (not_empty _ n, m, not_empty _ f, not_empty _ u, not_empty _ p)

-- ValidateTunnel returns no error exactly when the tunnel has a name and what its mode needs: local
-- and remote both addresses and an SSH account, dynamic a listening address and an SSH account, vpn a
-- server address, a user and a password. No other mode is accepted.
pub validate_tunnel_iff :
    (t : TunnelCfg) → (validate_tunnel t ≡ ok tt) ↔ ((t.name ≢ []) × IsComplete t)
validate_tunnel_iff t = (validate_tunnel-IsComplete t, λ c. IsComplete-validate_tunnel t c.0 c.1)
