-- ===== src/Connection/Examples.antt =====
-- A bound query on a connection whose bytes to come are known.
use sqlx_monetdb.Prelude.{◌≡◌, refl, [], ◌++◌, ok, some, arith}
use sqlx_monetdb.Text.{Text}
use sqlx_monetdb.Text.Utf8.{as_bytes, encode_char}
use sqlx_monetdb.Text.Split.{join}
use sqlx_monetdb.Text.Number.{print_unsigned, print_signed}
use sqlx_monetdb.Framing.{encode_message, write_chunks, chunks}
use sqlx_monetdb.Response.Fields.Escape.{render, escape, escape_char}
use sqlx_monetdb.Response.Fields.Tuples.{commas, render_tuple}
use sqlx_monetdb.Response.Headers.Update.{render_header}
use sqlx_monetdb.Response.Lines.Summary.{render_summary}
use sqlx_monetdb.Response.Lines.Replies.{render_lines}
use sqlx_monetdb.Arguments.Substitution.{template}
use sqlx_monetdb.Response.Lines.Tests.{reply, reply-IsReply}
use sqlx_monetdb.Session.Peers.{wire_of, Fits}
use sqlx_monetdb.Session.Queries.{request_of}
use sqlx_monetdb.Session.Examples.{Wire, wired-CalmNetwork, wired, wired_peer, at_start}
use sqlx_monetdb.Connection.{fetch_optional, fetch_many}
use sqlx_monetdb.Arguments.{MonetArguments}
use sqlx_monetdb.Arguments.Reader.{tokens}
use sqlx_monetdb.Arguments.Injection.{bind_all, all_written, meant}
use sqlx_monetdb.Arguments.Tests.{query_head, hostile, hostile-AllValues, hostile-Clean}
use sqlx_monetdb.Connection.Bound.{fetch_optional-bound}
use sqlx_monetdb.Connection.Panics.{fetch_optional-Calm}
use sqlx_monetdb.Session.Panics.{Calm}
use sqlx_monetdb.Arguments.{new_arguments}
use sqlx_monetdb.Connection.Items.{head_of}
use sqlx_monetdb.Connection.Replies.{reply_text, rows_of_reply}

reply-Fits : Fits wired wired_peer 999 (reply_text reply)
unfolding encode_message as_bytes write_chunks chunks encode_char join print_unsigned render_lines
    render_summary print_signed render_header commas render_tuple render escape escape_char
reply-Fits = (omega arith, omega arith)

fetch_optional-bound_example :
    (arguments : MonetArguments) × (sql : Text) × (after : Wire) × (bind_all new_arguments hostile
      ≡ ok arguments)
    × (tokens sql ≡ meant query_head hostile)
    × (fetch_optional wired 999 tt
          (template query_head (all_written hostile))
          (ok (some arguments))
          (at_start (wire_of wired wired_peer (reply_text reply) ++ []))
        ≡ (ok (head_of (rows_of_reply reply)), after))
    × (after ≡ record { incoming = []; unsent = []; gone = [] ++ request_of sql })
fetch_optional-bound_example =
    fetch_optional-bound wired wired_peer 999
      (at_start (wire_of wired wired_peer (reply_text reply) ++ [])) tt query_head hostile reply []
      [] hostile-AllValues (omega arith) hostile-Clean reply-IsReply reply-Fits refl

fetch_optional-Calm_example :
    Calm (fetch_many wired 999 tt query_head (ok (some new_arguments)))
    × Calm (fetch_optional wired 999 tt query_head (ok (some new_arguments)))
fetch_optional-Calm_example =
    fetch_optional-Calm wired wired-CalmNetwork 999 tt query_head (ok (some new_arguments))
