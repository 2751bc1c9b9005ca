-- ===== src/Options/Tests.antt =====
-- The options of two URLs.
use sqlx_monetdb.Prelude.{◌≡◌, [], ◌∷◌, ◌++◌, some, none, replicate, arith}
use sqlx_monetdb.Text.{codes}
use sqlx_monetdb.Options.{
  default_connect_options, from_url, with_host, with_port, with_username, with_password,
  with_database,
}
use sqlx_monetdb.Options.Urls.{from_url-builder, from_url-defaults}

demo_url :
    from_url tt (record {
      host_str = some (codes "db.example");
      url_port = some 50001;
      url_username = codes "ada";
      url_password = some (codes "secret");
      path = replicate 1 b'/' ++ (b'd' ∷ codes "emo");
    })
    ≡ with_database
        (with_password
          (with_username
            (with_port (with_host (default_connect_options tt) (codes "db.example")) 50001)
            (codes "ada"))
          (codes "secret"))
        (b'd' ∷ codes "emo")
demo_url =
    from_url-builder tt (codes "db.example") (codes "ada") (codes "secret") (codes "emo") 50001 1
      b'd' (λ e. cc e) (omega arith)

from_no_parts :
    from_url tt (record {
      host_str = none;
      url_port = none;
      url_username = [];
      url_password = none;
      path = replicate 2 b'/';
    })
    ≡ default_connect_options tt
from_no_parts = from_url-defaults tt 2
