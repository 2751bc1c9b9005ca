-- ===== src/Options/Addresses.antt =====
-- A parser that splits addresses of the form of src/options.rs, and options printed and parsed by it.
use sqlx_monetdb.Prelude.{
  ℕ, ◌^◌, ◌-◌, ◌≡◌, ◌≢◌, ◌⊎◌, inl, inr, refl, [], ◌∷◌, ◌++◌, List, Option, none, some, ok, err,
  Result, ok_or, ◌>>=◌, All, All-append, append_assoc, sym, arith,
}
use sqlx_monetdb.Text.{Text, codes, Lacks, strip_prefix, strip_prefix-append}
use sqlx_monetdb.Text.Split.{split, split-sep, split-Lacks, rsplit_once, rsplit_once-sep}
use sqlx_monetdb.Text.Number.{print_unsigned, parse_unsigned}
use sqlx_monetdb.Text.Number.Print.{IsDigit, print_unsigned-cons, parse_unsigned-print_unsigned}
use sqlx_monetdb.Options.{
  MonetConnectOptions, Url, display, from_str, default_connect_options, with_host,
}
use sqlx_monetdb.Options.Urls.{IsPlain, IsHost, UrlParser, from_str-display}

-- The user in front of the `@`, the host and the port up to the `/`, and the path.
abbrev with_path : Text → Option (Text × Text) → List Text → Result Text Url
with_path user (some (host, port)) (path ∷ []) =
    ok_or (parse_unsigned (2 ^ 16 - 1) port) (codes "invalid port number") >>= λ n. ok (record {
      host_str = some host;
      url_port = some n;
      url_username = user;
      url_password = none;
      path = b'/' ∷ path;
    })
with_path user _ _ = err (codes "invalid address")

abbrev with_user : Text → List Text → Result Text Url
with_user user [] = err (codes "invalid address")
with_user user (authority ∷ paths) = with_path user (rsplit_once authority b':') paths

abbrev with_parts : List Text → Result Text Url
with_parts (user ∷ tail ∷ []) = with_user user (split tail b'/')
with_parts _ = err (codes "invalid address")

abbrev split_address : Text → Result Text Url
split_address s = ok_or (strip_prefix s (codes "monetdb://")) (codes "invalid scheme") >>= λ rest.
    with_parts (split rest b'@')

-- No character of a text is one that a predicate rules out.
clear : (P : ℕ → Type 0) (bad : ℕ) (s : Text) → ((c : ℕ) → P c → c ≢ bad) → All P s → Lacks bad s
clear P bad [] out h = tt
clear P bad (c ∷ s) out (hc, h) = (out c hc, clear P bad s out h)

plain-ne : (bad c : ℕ) → (bad ≡ b'@') ⊎ (bad ≡ b'/') → IsPlain c → c ≢ bad
plain-ne bad c hb hc = λ e. grind (arith, hb, hc, e)

host-ne : (bad c : ℕ) → (bad ≡ b'@') ⊎ (bad ≡ b'/') → IsHost c → c ≢ bad
host-ne bad c hb hc = λ e. grind (arith, hb, hc, e)

port-Lacks : (bad port : ℕ) → ((c : ℕ) → IsDigit c → c ≢ bad) → Lacks bad (print_unsigned port)
port-Lacks bad port out =
    let (d, r, eq, h) = print_unsigned-cons port in rw eq (clear IsDigit bad (d ∷ r) out h)

authority-Lacks :
    (bad : ℕ) (host : Text) (port : ℕ)
    → (bad ≡ b'@') ⊎ (bad ≡ b'/')
    → All IsHost host
    → Lacks bad (host ++ (b':' ∷ print_unsigned port))
authority-Lacks bad host port hb hh =
    All-append _ host (b':' ∷ print_unsigned port)
      (clear IsHost bad host (λ c h. host-ne bad c hb h) hh)
      ((λ e. grind (arith, hb, e)), port-Lacks bad port (λ c h e. grind (arith, hb, h, e)))

address-UrlParser : UrlParser split_address
address-UrlParser = record {
  splits = λ user host path port nu nh hu hh hp le.
      let authority = host ++ (b':' ∷ print_unsigned port) in
      let regroup : host ++ (b':' ∷ (print_unsigned port ++ (b'/' ∷ path)))
          ≡ authority ++ (b'/' ∷ path) =
        sym (append_assoc host (b':' ∷ print_unsigned port) (b'/' ∷ path)) in
      let at_free : Lacks b'@' (authority ++ (b'/' ∷ path)) =
        All-append _ authority (b'/' ∷ path) (authority-Lacks b'@' host port (inl refl) hh)
          ((omega arith), clear IsPlain b'@' path (λ c h. plain-ne b'@' c (inl refl) h) hp) in
      let slash_free : Lacks b'/' path =
        clear IsPlain b'/' path (λ c h. plain-ne b'/' c (inr refl) h) hp in
      rw
        (
          strip_prefix-append (codes "monetdb://")
              (user ++ (b'@' ∷ (host ++ (b':' ∷ (print_unsigned port ++ (b'/' ∷ path)))))),
          split-sep user (host ++ (b':' ∷ (print_unsigned port ++ (b'/' ∷ path)))) b'@'
              (clear IsPlain b'@' user (λ c h. plain-ne b'@' c (inl refl) h) hu),
          regroup,
          split-Lacks (authority ++ (b'/' ∷ path)) b'@' at_free,
          split-sep authority path b'/' (authority-Lacks b'/' host port (inr refl) hh),
          split-Lacks path b'/' slash_free,
          rsplit_once-sep host (print_unsigned port) b':'
              (port-Lacks b':' port (λ c h. λ e. omega (arith, h, e))),
          parse_unsigned-print_unsigned (2 ^ 16 - 1) port le,
        )
        refl;
}

abbrev remote : MonetConnectOptions Unit
remote = with_host (default_connect_options tt) (codes "db-1.example")

from_str-display_example :
    from_str split_address tt (display remote)
    ≡ ok (record remote { password = codes "monetdb"; log_settings = tt })
unfolding with_host
from_str-display_example =
    from_str-display split_address tt remote address-UrlParser (λ e. cc e) (λ e. cc e) (λ e. cc e)
      (grind arith) (grind arith) (grind arith) (omega arith)
