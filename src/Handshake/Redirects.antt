-- ===== src/Handshake/Redirects.antt =====
-- The target of a redirect, `parse_redirect` of src/protocol/handshake.rs.
use sqlx_monetdb.Prelude.{
  ℕ, ◌-◌, ◌^◌, ◌≤◌, ◌≡◌, refl, false, [], ◌∷◌, ◌++◌, ok, All, All-append, arith,
}
use sqlx_monetdb.Text.{Text, codes, strip_prefix-append, contains, Lacks}
use sqlx_monetdb.Text.Split.{split, split-sep, rsplit_once-sep}
use sqlx_monetdb.Text.Number.{print_unsigned}
use sqlx_monetdb.Text.Number.Print.{print_unsigned-cons, IsDigit, parse_unsigned-print_unsigned}
use sqlx_monetdb.Handshake.{reconnect, parse_redirect}

-- The address of a server, as a redirect names it.
abbrev pub target_of : Text → ℕ → Text → Text
target_of host port path =
    codes "mapi:monetdb://" ++ ((host ++ b':' ∷ print_unsigned port) ++ b'/' ∷ path)

digits-clear : (c : ℕ) (s : Text) → (c ≤ 47) → All IsDigit s → Lacks c s
digits-clear c [] hc h = tt
digits-clear c (d ∷ s) hc (hd, h) = (omega arith, digits-clear c s hc h)

target-parts :
    (host : Text) (port : ℕ) (path : Text)
    → Lacks b'/' host
    → split ((host ++ b':' ∷ print_unsigned port) ++ b'/' ∷ path) b'/'
      ≡ (host ++ b':' ∷ print_unsigned port) ∷ split path b'/'
target-parts host port path hh =
    let (d, r, eq, h) = print_unsigned-cons port in
    split-sep (host ++ b':' ∷ print_unsigned port) path b'/' (
      All-append _ host (b':' ∷ print_unsigned port) hh
        ((omega arith), rw eq (digits-clear b'/' (d ∷ r) (omega arith) h)))

colon_free : (port : ℕ) → Lacks b':' (print_unsigned port)
colon_free port = let (d, r, eq, h) = print_unsigned-cons port in rw eq (digits_below (d ∷ r) h)
  where
    digits_below : (s : Text) → All IsDigit s → Lacks b':' s
    digits_below [] h = tt
    digits_below (c ∷ s) (hc, h) = (omega arith, digits_below s h)

-- A redirect to an address in which `merovingian` does not occur, whose host has no slash and
-- whose port fits in 16 bits, makes the driver reconnect to exactly that host and port, whatever
-- follows the slash. The host may itself hold colons.
pub parse_redirect-target_of :
    (host : Text) (port : ℕ) (path : Text)
    → contains (target_of host port path) (codes "merovingian") ≡ false
    → Lacks b'/' host
    → port ≤ 2 ^ 16 - 1
    → parse_redirect (target_of host port path) ≡ ok (reconnect host port)
unfolding parse_redirect
parse_redirect-target_of host port path hm hh hp =
    rw
      (
        hm,
        strip_prefix-append (codes "mapi:monetdb://")
            ((host ++ b':' ∷ print_unsigned port) ++ b'/' ∷ path),
        target-parts host port path hh,
        rsplit_once-sep host (print_unsigned port) b':' (colon_free port),
        parse_unsigned-print_unsigned (2 ^ 16 - 1) port hp,
        parse_redirect,
      )
      refl
