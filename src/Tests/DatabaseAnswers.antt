-- ===== src/Tests/DatabaseAnswers.antt =====
-- A test of the database handler on a whole request.
use amsserver.Base.{refl, arith, Returns}
use amsserver.HttpData.Protocol.{IsFresh}
use amsserver.HttpData.Limits.{HasLimits}
use amsserver.HttpData.RoundTrip.{request}
use amsserver.MySql.EndToEnd.{incoming}
use amsserver.MySql.Handler.{mysql_handle_http_data}
use amsserver.MySql.Linked.{IsModestBase}
use amsserver.MySql.Fits.{FitsPayload}
use amsserver.MySql.Total.{mysql_handle-Fits}
use amsserver.Tests.{large, holding, box, constant_mysql, two_rows}

two_rows-IsModestBase : IsModestBase (constant_mysql two_rows)
two_rows-IsModestBase c = record { columns = ground arith; rows_few = ground arith }

asked-IsFresh : IsFresh (holding (request box))
asked-IsFresh = record { small = ground arith; no_payload = refl; no_flag = refl }

asked-HasLimits : HasLimits (holding (request box))
asked-HasLimits = record {
  project_fits = ground arith;
  vendor_fits = ground arith;
  stb_fits = ground arith;
  chip_fits = ground arith;
  mac_fits = ground arith;
}

mysql_handle-Fits_example :
    Returns
      (mysql_handle_http_data (constant_mysql two_rows) large (incoming 0 (holding (request box))))
      FitsPayload
mysql_handle-Fits_example =
    mysql_handle-Fits (constant_mysql two_rows) two_rows-IsModestBase large
      (incoming 0 (holding (request box))) asked-IsFresh asked-HasLimits refl refl
