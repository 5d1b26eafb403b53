-- ===== src/Writeback.antt =====
-- src/writeback_sql_builder.cpp: the text of the statement that writes a result into a user table.
use Prim.Native.String.{◌++◌}
use pgquarry.Base.{String}
use pgquarry.Config.{TableMapping}

pub update_sql : TableMapping → String → String
update_sql m value_expr =
    "UPDATE "
    ++ (m.target_table
        ++ (" SET "
            ++ (m.target_column
                ++ (" = " ++ (value_expr ++ (" WHERE " ++ (m.target_id_column ++ " = $2")))))))

pub upsert_sql : TableMapping → String → String
upsert_sql m value_expr =
    "INSERT INTO "
    ++ (m.target_table
        ++ (" ("
            ++ (m.target_id_column
                ++ (", "
                    ++ (m.target_column
                        ++ (")"
                            ++ (" VALUES ($2, "
                                ++ (value_expr
                                    ++ (")"
                                        ++ (" ON CONFLICT ("
                                            ++ (m.target_id_column
                                                ++ (")"
                                                    ++ (" DO UPDATE SET "
                                                        ++ (m.target_column
                                                            ++ (" = EXCLUDED."
                                                            ++ m.target_column)))))))))))))))

unfoldable pub build_update_sql : TableMapping → String
unfolding update_sql
build_update_sql m = update_sql m "$1::vector"

unfoldable pub build_upsert_sql : TableMapping → String
unfolding upsert_sql
build_upsert_sql m = upsert_sql m "$1::vector"

unfoldable pub build_update_sql_text : TableMapping → String
unfolding update_sql
build_update_sql_text m = update_sql m "$1"

unfoldable pub build_upsert_sql_text : TableMapping → String
unfolding upsert_sql
build_upsert_sql_text m = upsert_sql m "$1"
