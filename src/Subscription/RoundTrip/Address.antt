-- ===== src/Subscription/RoundTrip/Address.antt =====
-- The address of a tunnel: splitHostPort of pkg/subscription/subscription.go, and what
-- parseClashYAML makes of its parts.
use safelink_ssh.Base.{
  ℕ, ◌≡◌, refl, subst, ◌≤◌, ◌^◌, ◌-◌, Bool, true, false, some, ok, err, ok_or, and_then,
  and_then_rule, arith, if◌then◌else◌,
}
use safelink_ssh.Base.Int.{ℤ, pos, negsuc}
use safelink_ssh.Base.Decimal.{decimal}
use safelink_ssh.Text.{Text}
use safelink_ssh.Text.Number.{is_digit, atoi}
use safelink_ssh.Text.Number.Printed.{digits-decimal, digits-any, atoi-digits}
use safelink_ssh.Net.HostPort.{has_rune, split_host_port, join_host_port}
use safelink_ssh.Net.HostPort.Joined.{IsAddress, split_host_port-IsAddress, split-join}
use safelink_ssh.Proxy.Valid.{is_port, is_port_iff}
use safelink_ssh.Subscription.Parse.{itoa}
use safelink_ssh.Subscription.Encode.{split_forward, EncodeError, invalid_port, invalid_forward}
use safelink_ssh.Subscription.RoundTrip.Json.{ok_or-ok}

-- A host without brackets and a port that is one.
pub record IsEndpoint (e : Text × ℤ) : Type 0 where
  pub host_open : has_rune b'[' e.0 ≡ false
  pub host_close : has_rune b']' e.0 ≡ false
  pub port : (n : ℕ) × (e.1 ≡ pos n) × (1 ≤ n) × (n ≤ 65535)

checked_port :
    (b : Bool) (e e' : Text × ℤ) (x : EncodeError)
    → (if b then ok e else err x) ≡ ok e'
    → (b ≡ true) × (e ≡ e')
checked_port true e e' x h = (refl, cc)
checked_port false e e' x h = cc

pub split_forward-IsEndpoint :
    (name forward : Text) (e : Text × ℤ) → split_forward name forward ≡ ok e → IsEndpoint e
unfolding split_forward
split_forward-IsEndpoint name forward =
    and_then_rule IsEndpoint (ok_or (invalid_forward name forward) (split_host_port forward)) _
      (λ parts e.
        and_then_rule IsEndpoint (ok_or (invalid_port name parts.1) (atoi parts.1)) _
          (λ port e' end h.
            let (fits, same) =
              checked_port (is_port port) (parts.0, port) end (invalid_port name parts.1) h in
            let a = split_host_port-IsAddress forward parts.0 parts.1 (ok_or-ok _ _ parts e) in
            subst IsEndpoint same (record {
              host_open = a.host_open;
              host_close = a.host_close;
              port = (is_port_iff port).0 fits;
            })))

-- The address of such parts.
printed-IsAddress : (host : Text) (n : ℕ) → IsEndpoint (host, pos n) → IsAddress host (decimal n)
unfolding has_rune is_digit
printed-IsAddress host n e = record {
  host_open = e.host_open;
  host_close = e.host_close;
  port_open = digits-any b'[' n (decimal n) refl (digits-decimal n);
  port_close = digits-any b']' n (decimal n) refl (digits-decimal n);
  port_colon = digits-any b':' n (decimal n) refl (digits-decimal n);
}

split_forward-parts :
    (name forward host text : Text) (port : ℤ)
    → split_host_port forward ≡ some (host, text)
    → atoi text ≡ some port
    → is_port port ≡ true
    → split_forward name forward ≡ ok (host, port)
unfolding split_forward ok_or and_then
split_forward-parts name forward host text port e e' e'' = rw (e, e', e'') refl

pos_injective : {m n : ℕ} → pos m ≡ pos n → m ≡ n
pos_injective e = cc

-- The parts come out of the address that is put together from them.
pub split_forward-join :
    (name : Text) (e : Text × ℤ)
    → IsEndpoint e
    → split_forward name (join_host_port e.0 (itoa e.1)) ≡ ok e
unfolding itoa
split_forward-join name (host, negsuc n) e = absurd (no_port e.port)
  where
    no_port : (n' : ℕ) × (negsuc n ≡ pos n') × (1 ≤ n') × (n' ≤ 65535) → ⊥
    no_port (n', e', lo, hi) = cc
split_forward-join name (host, pos n) e =
    let (m, same, lo, hi) = e.port in
    split_forward-parts name (join_host_port host (decimal n)) host (decimal n) (pos n)
      (split-join host (decimal n) (printed-IsAddress host n e))
      (atoi-digits (decimal n) n (digits-decimal n) (small n m (pos_injective same) hi))
      ((is_port_iff (pos n)).1 e.port)
  where
    small : (k l : ℕ) → k ≡ l → l ≤ 65535 → k ≤ 2 ^ 63 - 1
    small k l e' h = omega arith
