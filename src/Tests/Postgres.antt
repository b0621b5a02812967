-- ===== src/Tests/Postgres.antt =====
-- Statements of the store as they go to PostgreSQL.
use shigure_edr.Base.{◌<>◌, ◌≡◌, refl, [], ◌∷◌}
use mathlib.Core.Option
use shigure_edr.Base.Table.{select}
use shigure_edr.Base.Dict
use shigure_edr.Text.{lstrip, rstrip, strip, replace_by}
use shigure_edr.Postgres.{
  split_on, split_sql_script, substitute, literal, span, before_last, joined, order_by_rowid,
  user_text, user_name, quote_reserved_columns, parsed_upsert, translate_insert_or_ignore,
  translate_insert_or_replace, translate_sql,
}
use shigure_edr.Postgres.Scripts.{Written, IsWritten, script_of, split_sql_script_lem}

tenant_inserted :
    translate_sql "insert or ignore into tenants(tenant_id, created_at) values (?, ?)"
    ≡ "insert into tenants(tenant_id, created_at) values (%s, %s) on conflict do nothing"
unfolding translate_sql translate_insert_or_ignore translate_insert_or_replace parsed_upsert
    quote_reserved_columns order_by_rowid user_text user_name substitute literal span before_last
    joined split_on strip lstrip rstrip replace_by select Option.bind Dict.get
tenant_inserted = refl

config_replaced :
    translate_sql "insert or replace into tenant_configs(tenant_id, config_json) values (?, ?)" ≡ (
      "insert into tenant_configs(tenant_id, config_json) values (%s, %s) on conflict (tenant_id)"
      <> " do update set config_json=excluded.config_json")
unfolding translate_sql translate_insert_or_ignore translate_insert_or_replace parsed_upsert
    quote_reserved_columns order_by_rowid user_text user_name substitute literal span before_last
    joined split_on strip lstrip rstrip replace_by select Option.bind Dict.get
config_replaced = refl

user_searched :
    translate_sql
      "select event_json from events where tenant_id=? and user like ? order by created_at, rowid"
    ≡ "select event_json from events where tenant_id=%s and \"user\" like %s order by created_at"
unfolding translate_sql translate_insert_or_ignore translate_insert_or_replace parsed_upsert
    quote_reserved_columns order_by_rowid user_text user_name substitute literal span before_last
    joined split_on strip lstrip rstrip replace_by select Option.bind Dict.get
user_searched = refl

abbrev opening : Written
opening = record { lead = "\n  "; statement = "begin"; trail = "" }

abbrev closing : Written
closing = record { lead = "\n"; statement = "commit"; trail = " " }

opening-IsWritten : IsWritten opening
opening-IsWritten = record {
  lead_spaces = (refl, (refl, (refl, tt)));
  trail_spaces = tt;
  lacks = (refl, (refl, (refl, (refl, (refl, tt)))));
  begins = ("b", "egin", refl, refl);
  ends = refl;
}

closing-IsWritten : IsWritten closing
closing-IsWritten = record {
  lead_spaces = (refl, tt);
  trail_spaces = (refl, tt);
  lacks = (refl, (refl, (refl, (refl, (refl, (refl, tt))))));
  begins = ("c", "ommit", refl, refl);
  ends = refl;
}

split_sql_script_lem_example :
    split_sql_script (script_of (opening ∷ closing ∷ []) "\n") ≡ "begin" ∷ "commit" ∷ []
split_sql_script_lem_example =
    split_sql_script_lem (opening ∷ closing ∷ []) "\n" (opening-IsWritten, (closing-IsWritten, tt))
      (refl, tt)
